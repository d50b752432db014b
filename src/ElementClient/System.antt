-- ===== src/ElementClient/System.antt =====
-- The name server of servidor_dns_nuevo.c and a daemon of servidor_archivos_nuevo.c, as a client of
-- cliente_nuevo.c reaches them.
use so_distribuidos.Prelude.{
  Bool, ◌&&◌, Option, none, some, List, Bytes, str_eq, ℤ, eqb_ℤ, if◌then◌else◌,
}
use so_distribuidos.Transfer.Loops.{Connection}
use so_distribuidos.Transfer.Files.{FileSystem}
use so_distribuidos.ElementDns.Service.{Tabla, Locales, ip_local, manejar_cliente}
use so_distribuidos.ElementDns.Exchange.{EscribirCabe}
use so_distribuidos.ElementServer.Daemon.{Atencion, Marco, OrdenesCaben, manejar_cliente_daemon}

-- The table of the name server, and the files of the server.
pub record Sistema : Type 0 where
  pub tabla : Tabla
  pub archivos : FileSystem

-- The name server, with what its handler's variables held before.
abbrev pub dns_de : Locales → Bytes → Sistema → Option Bytes × Sistema
dns_de l b r =
    let a = manejar_cliente l b r.tabla in (some a.1, record { tabla = a.0; archivos = r.archivos })

-- Both servers are built so that the words that overrun comando (ESCRIBIR in the name server, both commands
-- in the daemon) damage nothing that the handlers read.
pub record Intacto (l : Locales) (server_open : Bytes → Bool) (marco : Marco)
    (registrados : List Bytes) : Type 0 where
  pub escribir : EscribirCabe l
  pub ordenes : OrdenesCaben server_open marco registrados

-- The daemon at ip_local and `puerto` has the elements `registrados`. `llega` says in which pieces what one
-- side sends arrives at the other.
module _ (l : Locales) (puerto : ℤ) (server_open : Bytes → Bool) (marco : Marco)
    (registrados : List Bytes) (llega : List Bytes → Connection) where
  -- desbloquear_elemento_dns.
  abbrev pub avisar : Option Bytes → Tabla → Tabla
  avisar none t = t
  avisar (some b) t = (manejar_cliente l b t).0

  abbrev pub tras : Atencion → Tabla → Option Connection × Sistema
  tras a t = (some (llega a.enviado), record { tabla = avisar a.al_dns t; archivos = a.archivos })

  -- The loop of ejecutar_daemon, for one connection.
  unfoldable pub conectar_de : Bytes → ℤ → List Bytes → Sistema → Option Connection × Sistema
  conectar_de ip p textos r =
      if str_eq ip ip_local && eqb_ℤ p puerto
      then tras (manejar_cliente_daemon server_open marco registrados (llega textos) r.archivos)
          r.tabla
      else (none, r)
