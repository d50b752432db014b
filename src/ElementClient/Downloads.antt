-- ===== src/ElementClient/Downloads.antt =====
-- The files that the client of cliente_nuevo.c keeps under descargas_distribuidas.
use so_distribuidos.Prelude.{
  ◌≤◌, Bool, true, false, Option, none, some, [], ◌∷◌, ◌≡◌, ◌≢◌, refl, ap, ◌∙◌, arith, Bytes,
  length, take, length-take,
}
use so_distribuidos.Transfer.Loops.{Connection, concat, send_file, receive_file, receive_file_lem}
use so_distribuidos.Transfer.Files.{
  Node, file, folder, FileSystem, es_carpeta, ruta, put_ne, write_file_self,
}
use so_distribuidos.ElementDns.Messages.{IsWord}
use so_distribuidos.ElementClient.Folder.{
  descargas, or_same, mkdir_en, mkdir, crear_carpeta_descargas, recibir_archivo, enviar_archivo,
}
use so_distribuidos.ElementClient.Request.{Entorno}

abbrev pub path_de : Bytes → Bytes
path_de n = ruta descargas n

path_ne : (n : Bytes) → IsWord n → descargas ≢ path_de n
unfolding ruta
path_ne [] w = absurd w
path_ne (x ∷ n) w = λ e. absurd (omega (arith, ap length e))

-- The folder of the downloads is made, or not: another path is as it was.
crear-other :
    (can_mkdir : Bytes → Bool) (fs : FileSystem) (q : Bytes)
    → descargas ≢ q
    → crear_carpeta_descargas can_mkdir fs q ≡ fs q
unfolding crear_carpeta_descargas mkdir
crear-other can_mkdir fs q h = go (can_mkdir descargas) (fs descargas)
  where
    go : (ok : Bool) (o : Option Node) → or_same fs (mkdir_en ok descargas fs o) q ≡ fs q
    go ok (some n) = refl
    go false none = refl
    go true none = put_ne descargas q (folder []) fs h

-- A word that the client's user has downloaded is written where the downloads are.
pub downloaded :
    (v : Entorno) (n : Bytes) (s : Connection) (local : FileSystem)
    → IsWord n
    → v.can_open (path_de n) ≡ true
    → es_carpeta (local (path_de n)) ≡ false
    → recibir_archivo v.can_open n s (crear_carpeta_descargas v.can_mkdir local) (path_de n)
      ≡ some (file (concat s))
unfolding recibir_archivo
downloaded v n s local w o d =
    write_file_self v.can_open (path_de n) (receive_file s)
      (crear_carpeta_descargas v.can_mkdir local) o
      (ap es_carpeta (crear-other v.can_mkdir local (path_de n) (path_ne n w)) ∙ d)
    ∙ ap (λ b. some (file b)) (receive_file_lem s)

pub sent :
    (v : Entorno) (n d : Bytes) (fs : FileSystem)
    → v.can_open (path_de n) ≡ true
    → fs (path_de n) ≡ some (file d)
    → enviar_archivo v.can_open n fs ≡ send_file d
unfolding enviar_archivo
sent v n d fs o e = rw (e, o) refl

pub take_fits : (b : Bytes) → length (take 1023 b) ≤ 1023
take_fits b = omega (arith, length-take 1023 b)
