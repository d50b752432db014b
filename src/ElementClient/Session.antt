-- ===== src/ElementClient/Session.antt =====
-- A client of cliente_nuevo.c, the name server of servidor_dns_nuevo.c and a daemon of
-- servidor_archivos_nuevo.c, over one run of solicitar_elemento.
use so_distribuidos.Prelude.{
  ◌≤◌, Bool, true, false, Option, some, List, [], ◌∷◌, ◌++◌, ◌≡◌, ◌≢◌, refl, sym, ap, ◌∙◌, arith,
  Bytes, codes, str_eq, str_eq_iff, ℤ, eqb_ℤ_iff, length, print_int, find, modify, find-modify_self,
  map_some, append-nil,
}
use so_distribuidos.Transfer.Loops.{Connection, concat, send_file, concat-send_file}
use so_distribuidos.Transfer.Files.{
  file, FileSystem, es_carpeta, write_file, write_file_self, write_file_ne,
}
use so_distribuidos.ElementDns.Service.{
  tipo_archivo, EntradaElemento, Tabla, nombre_de, entrada_nueva, set_bloqueado, Locales, ip_local,
  atender, respuesta_ok, manejar_cliente, desbloquear_elemento,
}
use so_distribuidos.ElementDns.Messages.{IsWord, pedir_elemento, pedir_desbloqueo}
use so_distribuidos.ElementDns.Exchange.{
  manejar_cliente-pedir_elemento, manejar_cliente-pedir_desbloqueo,
}
use so_distribuidos.ElementServer.Daemon.{esta_registrado, Atencion, Marco, manejar_cliente_daemon}
use so_distribuidos.ElementClient.Folder.{crear_carpeta_descargas, recibir_archivo}
use so_distribuidos.ElementClient.Request.{
  pedir_obtener, pedir_actualizar, Ubicacion, Entorno, con_ubicacion, segun, con_respuesta,
  solicitar_elemento,
}
use so_distribuidos.ElementClient.Serving.{daemon_actualizar, daemon_obtener}
use so_distribuidos.ElementClient.Answer.{respuesta_round_trip}
use so_distribuidos.ElementClient.System.{Sistema, Intacto, dns_de, tras, conectar_de}
use so_distribuidos.ElementClient.Downloads.{path_de, downloaded, sent, take_fits}

module _ (l : Locales) (puerto : ℤ) (server_open : Bytes → Bool) (marco : Marco)
    (registrados : List Bytes) (llega : List Bytes → Connection)
    (todo : (s : List Bytes) → concat (llega s) ≡ concat s)
    (aparte : (b : Bytes) (s : List Bytes)
      → b ≢ []
      → length b ≤ 1023
      → (p : Connection) × (llega (b ∷ s) ≡ b ∷ p) × (concat p ≡ concat s))
    (intacto : Intacto l server_open marco registrados) (n c : Bytes) (word : IsWord n)
    (short : length n ≤ 255) (registered : esta_registrado n registrados ≡ true)
    (opens : server_open n ≡ true) where
  abbrev pub elemento : EntradaElemento
  elemento = entrada_nueva n ip_local puerto tipo_archivo

  abbrev pub dns_servidor : Bytes → Sistema → Option Bytes × Sistema
  dns_servidor = dns_de l

  abbrev pub conectar : Bytes → ℤ → List Bytes → Sistema → Option Connection × Sistema
  conectar = conectar_de l puerto server_open marco registrados llega

  here :
      (textos : List Bytes) (r : Sistema)
      → conectar ip_local puerto textos r
        ≡ tras l puerto server_open marco registrados llega
            (manejar_cliente_daemon server_open marco registrados (llega textos) r.archivos)
            r.tabla
  unfolding conectar_de
  here textos r = rw ((str_eq_iff ip_local ip_local).1 refl, (eqb_ℤ_iff puerto puerto).1 refl) refl

  abbrev tras_de : Atencion → Tabla → Option Connection × Sistema
  tras_de = tras l puerto server_open marco registrados llega

  pub conectar_obtener :
      (r : Sistema)
      → r.archivos n ≡ some (file c)
      → conectar ip_local puerto (pedir_obtener n ∷ []) r ≡ (some (llega (send_file c)), r)
  unfolding pedir_obtener
  conectar_obtener r f =
      let (p, e, k) =
        aparte (pedir_obtener n) [] (λ q. absurd (omega (arith, ap length q)))
          (take_fits (codes "OBTENER_ELEMENTO" ++ 32 ∷ n)) in
      here (pedir_obtener n ∷ []) r
      ∙ ap
          (λ s. tras_de (manejar_cliente_daemon server_open marco registrados s r.archivos) r.tabla)
          e
      ∙ ap (λ a. tras_de a r.tabla)
          (daemon_obtener server_open marco registrados n c intacto.ordenes word short r.archivos f
            registered p opens)

  unlocked :
      (t : Tabla)
      → (manejar_cliente l (pedir_desbloqueo n) t).0 ≡ modify nombre_de n (set_bloqueado 0) t
  unfolding atender desbloquear_elemento
  unlocked t = ap (λ r. r.0) (manejar_cliente-pedir_desbloqueo l n t word short)

  pub conectar_actualizar :
      (d : Bytes) (r : Sistema)
      → r.archivos n ≡ some (file c)
      → (conectar ip_local puerto (pedir_actualizar n ∷ send_file d) r).1 ≡ record {
        tabla = modify nombre_de n (set_bloqueado 0) r.tabla;
        archivos = write_file server_open n d r.archivos;
      }
  unfolding pedir_actualizar
  conectar_actualizar d r f =
      let (p, e, k) =
        aparte (pedir_actualizar n) (send_file d) (λ q. absurd (omega (arith, ap length q)))
          (take_fits (codes "ACTUALIZAR_ARCHIVO" ++ 32 ∷ n)) in
      ap (λ x. x.1) (here (pedir_actualizar n ∷ send_file d) r)
      ∙ ap
          (λ s.
            (tras_de (manejar_cliente_daemon server_open marco registrados s r.archivos) r.tabla).1)
          (e ∙ ap (λ b. b ∷ p) (sym (append-nil (pedir_actualizar n))))
      ∙ ap (λ a. (tras_de a r.tabla).1)
          (daemon_actualizar server_open marco registrados n c intacto.ordenes word short r.archivos
            f registered [] p tt (omega arith))
      ∙ ap (λ t. record { tabla = t; archivos = write_file server_open n (concat p) r.archivos })
          (unlocked r.tabla)
      ∙ ap
          (λ b. record {
            tabla = modify nombre_de n (set_bloqueado 0) r.tabla;
            archivos = write_file server_open n b r.archivos;
          })
          (k ∙ concat-send_file d)

  abbrev pub ubicacion : Ubicacion
  ubicacion = record {
    ip_servidor = ip_local;
    puerto_servidor = puerto;
    tipo_str = codes "ARCHIVO";
  }

  pub granted :
      (r : Sistema)
      → find nombre_de n r.tabla ≡ some elemento
      → dns_servidor (pedir_elemento n (codes "ESCRIBIR")) r ≡ (
        some (respuesta_ok elemento),
        record { tabla = modify nombre_de n (set_bloqueado 1) r.tabla; archivos = r.archivos },
      )
  unfolding atender str_eq
  granted r h = rw (manejar_cliente-pedir_elemento l n r.tabla intacto.escribir word short, h) refl

  -- The client, the name server has granted the request to it.
  module _ (v : Entorno) (f : Bytes → Bytes) (local : FileSystem)
      (client_open : v.can_open (path_de n) ≡ true)
      (no_folder : es_carpeta (local (path_de n)) ≡ false)
      (edits : (fs : FileSystem)
        → fs (path_de n) ≡ some (file c)
        → v.editar fs (path_de n) ≡ some (file (f c))) where
    con_ubicacion-escribir :
        (r : Sistema)
        → r.archivos n ≡ some (file c)
        → (con_ubicacion dns_servidor conectar v n (codes "ESCRIBIR") ubicacion local r).remoto
          ≡ record {
            tabla = modify nombre_de n (set_bloqueado 0) r.tabla;
            archivos = write_file server_open n (f c) r.archivos;
          }
    unfolding str_eq
    con_ubicacion-escribir r h =
        rw (conectar_obtener r h, sent v n (f c) _ client_open edited)
          (conectar_actualizar (f c) r h)
      where
        s : Connection
        s = llega (send_file c)

        edited :
            v.editar
              (recibir_archivo v.can_open n s (crear_carpeta_descargas v.can_mkdir local))
              (path_de n)
            ≡ some (file (f c))
        edited =
            edits (recibir_archivo v.can_open n s (crear_carpeta_descargas v.can_mkdir local)) (
              downloaded v n s local word client_open no_folder
              ∙ ap (λ b. some (file b)) (todo (send_file c) ∙ concat-send_file c))

    -- What a whole run of the client for writing leaves at the servers.
    escrito :
        (r : Sistema)
        → find nombre_de n r.tabla ≡ some elemento
        → r.archivos n ≡ some (file c)
        → length (print_int puerto) ≤ 900
        → (solicitar_elemento dns_servidor conectar v n
            (codes "ESCRIBIR")
            (record { archivos = local; remoto = r })).remoto
          ≡ record {
            tabla =
                modify nombre_de n (set_bloqueado 0) (modify nombre_de n (set_bloqueado 1) r.tabla);
            archivos = write_file server_open n (f c) r.archivos;
          }
    unfolding solicitar_elemento
    escrito r h k p =
        ap (λ a. (con_respuesta dns_servidor conectar v n (codes "ESCRIBIR") local a).remoto)
          (granted r h)
        ∙ ap (λ a. (segun dns_servidor conectar v n (codes "ESCRIBIR") a local r1).remoto)
            (respuesta_round_trip v.ubicacion elemento (ground arith) (omega arith))
        ∙ con_ubicacion-escribir r1 k
      where
        r1 : Sistema
        r1 = record { tabla = modify nombre_de n (set_bloqueado 1) r.tabla; archivos = r.archivos }

-- A session for writing, of a client, the name server and a daemon that has the element
-- registered. When the element stands unlocked in the table at the daemon's port and is a regular
-- file with the contents c, when its name is a word of at most 255 bytes and the port fits the
-- messages, when both servers are built so that the words that overrun comando damage nothing they read, when
-- the file opens at the daemon and its copy at the client, where no folder has its place, when
-- all that is sent arrives and a message before what follows it, and when the user's edit turns a
-- copy with c into one with f c: the server's file has f c, all other files are as they were, and
-- the entry of the element is unlocked again and otherwise unchanged.
pub sesion_escritura :
    (l : Locales) (puerto : ℤ) (server_open : Bytes → Bool) (marco : Marco)
    (registrados : List Bytes) (llega : List Bytes → Connection)
    (todo : (s : List Bytes) → concat (llega s) ≡ concat s)
    (aparte : (b : Bytes) (s : List Bytes)
      → b ≢ []
      → length b ≤ 1023
      → (p : Connection) × (llega (b ∷ s) ≡ b ∷ p) × (concat p ≡ concat s))
    (intacto : Intacto l server_open marco registrados) (n c : Bytes) (v : Entorno)
    (f : Bytes → Bytes) (local : FileSystem) (r : Sistema)
    → IsWord n
    → length n ≤ 255
    → length (print_int puerto) ≤ 900
    → esta_registrado n registrados ≡ true
    → server_open n ≡ true
    → v.can_open (path_de n) ≡ true
    → es_carpeta (local (path_de n)) ≡ false
    → ((fs : FileSystem)
        → fs (path_de n) ≡ some (file c)
        → v.editar fs (path_de n) ≡ some (file (f c)))
    → find nombre_de n r.tabla ≡ some (entrada_nueva n ip_local puerto tipo_archivo)
    → r.archivos n ≡ some (file c)
    → let r' =
        (solicitar_elemento
          (dns_de l)
          (conectar_de l puerto server_open marco registrados llega)
          v
          n
          (codes "ESCRIBIR")
          (record { archivos = local; remoto = r })).remoto in
      (r'.archivos n ≡ some (file (f c)))
      × ((q : Bytes) → n ≢ q → r'.archivos q ≡ r.archivos q)
      × (find nombre_de n r'.tabla ≡ some (entrada_nueva n ip_local puerto tipo_archivo))
sesion_escritura l puerto server_open marco registrados llega todo aparte intacto n c v f local r w
      s p reg opens co nf ed h k =
    (
      ap (λ x. x.archivos n) e
          ∙ write_file_self server_open n (f c) r.archivos opens (ap es_carpeta k),
      λ q d. ap (λ x. x.archivos q) e ∙ write_file_ne server_open n q (f c) r.archivos d,
      ap (λ x. find nombre_de n x.tabla) e
          ∙ find-modify_self nombre_de n (set_bloqueado 0) _ (λ x. refl)
          ∙ ap (map_some (set_bloqueado 0))
              (find-modify_self nombre_de n (set_bloqueado 1) r.tabla (λ x. refl))
          ∙ ap (λ o. map_some (set_bloqueado 0) (map_some (set_bloqueado 1) o)) h,
    )
  where
    e :
        (solicitar_elemento
          (dns_de l)
          (conectar_de l puerto server_open marco registrados llega)
          v
          n
          (codes "ESCRIBIR")
          (record { archivos = local; remoto = r })).remoto
        ≡ record {
          tabla =
              modify nombre_de n (set_bloqueado 0) (modify nombre_de n (set_bloqueado 1) r.tabla);
          archivos = write_file server_open n (f c) r.archivos;
        }
    e =
        escrito l puerto server_open marco registrados llega todo aparte intacto n c w s reg opens v
          f local co nf ed r h k p
