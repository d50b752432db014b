-- ===== src/ElementClient/NoLostUpdate.antt =====
-- cliente_nuevo.c, servidor_dns_nuevo.c and servidor_archivos_nuevo.c: an element that several clients write.
use so_distribuidos.Prelude.{
  ℕ, ◌≤◌, Bool, true, false, ◌≡◌, ◌≢◌, inl, some, List, [], ◌∷◌, Bytes, print_int, ℤ, length, find,
}
use so_distribuidos.Transfer.Loops.{Connection, concat}
use so_distribuidos.Transfer.Files.{file, FileSystem, es_carpeta}
use so_distribuidos.ElementDns.Service.{nombre_de, Locales, entrada_nueva, ip_local, tipo_archivo}
use so_distribuidos.ElementDns.Messages.{IsWord}
use so_distribuidos.ElementServer.Daemon.{esta_registrado, Marco}
use so_distribuidos.ElementClient.Request.{Entorno}
use so_distribuidos.ElementClient.System.{Intacto, dns_de, conectar_de}
use so_distribuidos.ElementClient.Downloads.{path_de}
use so_distribuidos.ElementClient.Stretches.{libre}
use so_distribuidos.ElementClient.Interleaving.{Red, Suceso, contenido, corre, devueltas}
use so_distribuidos.ElementClient.Exclusion.{Ajenos, IsRed, corre-IsRed, solo_uno}

-- Clients that write to one element lose no update. A client runs solicitar_elemento in three
-- stretches, between which every other client and any other program may act. The element is a
-- regular file in the daemon's registrations, with an unlocked entry at the daemon's port; its
-- name is a word of at most 255 bytes, and the port fits the messages; both servers are built so that
-- the words that overrun comando damage nothing they read, and the daemon serves one connection before
-- it takes the next; the element opens at the server and its copy at every
-- client, where no folder has its place; what is sent arrives, a first message before what follows
-- it; client i's edit turns a copy with c into one with f i c; and no client is at work. Then after
-- any sequence of stretches and of other programs' requests, none of which unlocks the
-- element or overruns the name server's arrays, the
-- server's file has the first contents after the edits of all clients that have returned it, each
-- applied to the result of those before it, in the order of their returns. Never do two clients
-- hold the element.
pub no_perdidas :
    (l : Locales) (puerto : ℤ) (server_open : Bytes → Bool) (marco : Marco)
    (registrados : List Bytes) (llega : List Bytes → Connection)
    (todo : (s : List Bytes) → concat (llega s) ≡ concat s)
    (aparte : (b : Bytes) (s : List Bytes)
      → b ≢ []
      → length b ≤ 1023
      → (p : Connection) × (llega (b ∷ s) ≡ b ∷ p) × (concat p ≡ concat s))
    (intacto : Intacto l server_open marco registrados) (n : Bytes) (entorno : ℕ → Entorno)
    (f : ℕ → Bytes → Bytes) (c : Bytes) (x : Red) (ss : List Suceso)
    → IsWord n
    → length n ≤ 255
    → length (print_int puerto) ≤ 900
    → esta_registrado n registrados ≡ true
    → server_open n ≡ true
    → ((i : ℕ) → (entorno i).can_open (path_de n) ≡ true)
    → ((i : ℕ) (b : Bytes) (fs : FileSystem)
        → fs (path_de n) ≡ some (file b)
        → (entorno i).editar fs (path_de n) ≡ some (file (f i b)))
    → find nombre_de n x.remoto.tabla ≡ some (entrada_nueva n ip_local puerto tipo_archivo)
    → x.remoto.archivos n ≡ some (file c)
    → ((i : ℕ) → es_carpeta ((x.clientes i).archivos (path_de n)) ≡ false)
    → ((i : ℕ) → (x.clientes i).fase ≡ libre)
    → Ajenos n ss
    → let connect = conectar_de l puerto server_open marco registrados llega in
      let x' = corre (dns_de l) connect entorno n ss x in
      (x'.remoto.archivos n
        ≡ some (file (contenido f (devueltas (dns_de l) connect entorno n ss x) c)))
      × ((i j : ℕ) → (x'.clientes i).fase ≢ libre → (x'.clientes j).fase ≢ libre → i ≡ j)
no_perdidas l puerto server_open marco registrados llega todo aparte intacto n entorno f c x ss w s
      p reg opens co ed h k nf z d =
    (
      v.contents,
      λ i j.
          solo_uno l puerto server_open marco registrados llega todo aparte intacto n w s p reg
            opens entorno f co ed
            (contenido f
              (devueltas (dns_de l) (conectar_de l puerto server_open marco registrados llega)
                entorno n ss x)
              c)
            (corre (dns_de l) (conectar_de l puerto server_open marco registrados llega) entorno n
              ss x)
            i j v.exclusive,
    )
  where
    v :
        IsRed l puerto server_open marco registrados llega todo aparte intacto n w s p reg opens
          entorno f co ed
          (contenido f
            (devueltas
              (dns_de l)
              (conectar_de l puerto server_open marco registrados llega)
              entorno
              n
              ss
              x)
            c)
          (corre
            (dns_de l)
            (conectar_de l puerto server_open marco registrados llega)
            entorno
            n
            ss
            x)
    v =
        corre-IsRed l puerto server_open marco registrados llega todo aparte intacto n w s p reg
          opens entorno f co ed ss c x d
          (record { contents = k; no_folder = nf; exclusive = inl (h, z) })
