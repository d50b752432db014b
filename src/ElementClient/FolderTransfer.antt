-- ===== src/ElementClient/FolderTransfer.antt =====
-- A folder that a daemon of servidor_archivos_nuevo.c sends, as the client of cliente_nuevo.c receives it.
use so_distribuidos.Prelude.{
  ℕ, zero, suc, ◌≤◌, ◌<◌, Bool, true, false, Option, none, some, List, [], ◌∷◌, ◌++◌, ◌≡◌, ◌≢◌,
  refl, ap, ◌∙◌, subst, arith, Bytes, codes, starts_with, strip_prefix, c_str, pos, ℤ,
  if◌then◌else◌, length, length-append, length-take, take, print_nat,
}
use so_distribuidos.Transfer.Loops.{
  Connection, concat, send_file, concat-send_file, send_file-IsChunk,
}
use so_distribuidos.Transfer.Files.{
  Node, file, folder, special, FileSystem, es_carpeta, ruta, write_file,
}
use so_distribuidos.ElementServer.Daemon.{
  cabecera_archivo, cabecera_carpeta, es_punto, enviar_entrada, enviar_carpeta_de, enviar_entradas,
  enviar_carpeta,
}
use so_distribuidos.ElementClient.Folder.{
  descargas, or_same, mkdir, recv_exact, leer_mensaje, con_mensaje, con_recv, recibir_en,
  recibir_entradas, con_mkdir, recibir_carpeta,
}
use so_distribuidos.ElementClient.Serving.{recv_piece}
use so_distribuidos.ElementClient.Headers.{IsNombre, leer_cabecera, leer_cabecera_carpeta}
use so_distribuidos.ElementClient.Pieces.{length-concat_append, recv_exact-chunks}

module _ (server_open can_open can_mkdir : Bytes → Bool) (held : Bytes × ℤ) (sfs : FileSystem)
    (nombre : Bytes) where
  -- What a folder is at the client: a file with the bytes of the server's, and a folder for a folder.
  abbrev pub guardar_entrada : Bytes → Option Node → FileSystem → FileSystem
  guardar_entrada n (some (file c)) fs = write_file can_open (ruta (ruta descargas nombre) n) c fs
  guardar_entrada n (some (folder ns)) fs =
      or_same fs (mkdir can_mkdir (ruta (ruta descargas nombre) n) fs)
  guardar_entrada n _ fs = fs

  abbrev pub guardar_si : Bool → Bytes → FileSystem → FileSystem
  guardar_si true n fs = fs
  guardar_si false n fs = guardar_entrada n (sfs (ruta nombre n)) fs

  unfoldable pub guardar : List Bytes → FileSystem → FileSystem
  guardar [] fs = fs
  guardar (n ∷ ns) fs = guardar ns (guardar_si (es_punto n) n fs)

  -- The client's file opens, and the size of the server's fits a header.
  abbrev pub AbreEntrada : Bytes → Option Node → FileSystem → Type 0
  AbreEntrada n (some (file c)) fs =
      (can_open (ruta (ruta descargas nombre) n) ≡ true)
      × (es_carpeta (fs (ruta (ruta descargas nombre) n)) ≡ false)
      × (length (print_nat (length c)) ≤ 700)
  AbreEntrada n _ fs = Unit

  abbrev pub Abre : List Bytes → FileSystem → Type 0
  Abre [] fs = Unit
  Abre (n ∷ ns) fs =
      IsNombre n × AbreEntrada n (sfs (ruta nombre n)) fs × Abre ns (guardar_si (es_punto n) n fs)

  abbrev recibir : ℕ → Connection → FileSystem → FileSystem
  recibir = recibir_entradas can_open can_mkdir held (ruta descargas nombre)

  recibir_message :
      (fuel : ℕ) (b : Bytes) (s : Connection) (fs : FileSystem)
      → b ≢ []
      → length b ≤ 1023
      → recibir (suc fuel) (b ∷ s) fs
        ≡ con_mensaje can_open can_mkdir held
            (ruta descargas nombre)
            (recibir fuel)
            (leer_mensaje held (c_str b))
            s
            fs
  unfolding recibir_entradas
  recibir_message fuel [] s fs h k = absurd (h refl)
  recibir_message fuel (x ∷ b) s fs h k =
      ap (λ r. con_recv can_open can_mkdir held (ruta descargas nombre) (recibir fuel) r fs)
        (recv_piece 1023 (x ∷ b) s h k)

  recibir_fin :
      (fuel : ℕ) (fs : FileSystem) → recibir (suc fuel) (codes "FIN_CARPETA\n" ∷ []) fs ≡ fs
  unfolding leer_mensaje starts_with strip_prefix c_str
  recibir_fin fuel fs =
      recibir_message fuel (codes "FIN_CARPETA\n") [] fs (λ e. absurd (omega (arith, ap length e)))
        (omega arith)

  recibir_en-send_file :
      (path c : Bytes) (s : Connection) (fs : FileSystem)
      → can_open path ≡ true
      → es_carpeta (fs path) ≡ false
      → recibir_en can_open can_mkdir held
          (ruta descargas nombre)
          path
          (pos (length c))
          (send_file c ++ s)
          fs
        ≡ (s, write_file can_open path c fs)
  recibir_en-send_file path c s fs o d = rw (o, d, exact) refl
    where
      exact : recv_exact (length c) (length c) (send_file c ++ s) ≡ (c, s)
      exact =
          subst (λ b. recv_exact (length c) (length b) (send_file c ++ s) ≡ (b, s))
            (concat-send_file c)
            (recv_exact-chunks (send_file c) s (length c) (send_file-IsChunk c)
              (omega (arith, ap length (concat-send_file c))))

  cabecera_fits : (b : Bytes) → length (take 1023 b) ≤ 1023
  cabecera_fits b = omega (arith, length-take 1023 b)

  recibir_file :
      (fuel : ℕ) (n c : Bytes) (s : Connection) (fs : FileSystem)
      → IsNombre n
      → AbreEntrada n (some (file c)) fs
      → recibir (suc fuel) (cabecera_archivo n (length c) ∷ (send_file c ++ s)) fs
        ≡ recibir fuel s (write_file can_open (ruta (ruta descargas nombre) n) c fs)
  unfolding cabecera_archivo
  recibir_file fuel n c s fs w (o, d, k) =
      recibir_message fuel (cabecera_archivo n (length c)) (send_file c ++ s) fs
        (λ e. absurd (omega (arith, ap length e)))
        (cabecera_fits (codes "ARCHIVO:" ++ (n ++ (58 ∷ print_nat (length c) ++ codes "\n"))))
      ∙ ap
          (λ m.
            con_mensaje can_open can_mkdir held (ruta descargas nombre) (recibir fuel) m
              (send_file c ++ s) fs)
          (leer_cabecera held n (length c) w k)
      ∙ ap (λ r. recibir fuel r.0 r.1)
          (recibir_en-send_file (ruta (ruta descargas nombre) n) c s fs o d)

  recibir_folder :
      (fuel : ℕ) (n : Bytes) (s : Connection) (fs : FileSystem)
      → IsNombre n
      → recibir (suc fuel) (cabecera_carpeta n ∷ s) fs
        ≡ recibir fuel s (or_same fs (mkdir can_mkdir (ruta (ruta descargas nombre) n) fs))
  unfolding cabecera_carpeta
  recibir_folder fuel n s fs w =
      recibir_message fuel (cabecera_carpeta n) s fs (λ e. absurd (omega (arith, ap length e)))
        (cabecera_fits (codes "CARPETA:" ++ (n ++ codes "\n")))
      ∙ ap (λ m. con_mensaje can_open can_mkdir held (ruta descargas nombre) (recibir fuel) m s fs)
          (leer_cabecera_carpeta held n w)

  abbrev enviados : List Bytes → List Bytes
  enviados = enviar_entradas server_open sfs nombre

  -- One entry, with what is sent behind it. The fuel that is left is enough for the rest.
  recibir_entrada :
      (fuel : ℕ) (n : Bytes) (o : Option Node) (rest : List Bytes) (fs : FileSystem)
      → IsNombre n
      → AbreEntrada n o fs
      → length (concat (enviar_entrada true n o ++ rest)) < suc fuel
      → (fuel' : ℕ) × (length (concat rest) < fuel')
        × (recibir (suc fuel) (enviar_entrada true n o ++ rest) fs
            ≡ recibir fuel' rest (guardar_entrada n o fs))
  unfolding concat cabecera_archivo cabecera_carpeta
  recibir_entrada fuel n none rest fs w a h = (suc fuel, h, refl)
  recibir_entrada fuel n (some special) rest fs w a h = (suc fuel, h, refl)
  recibir_entrada fuel n (some (folder ns)) rest fs w a h = (
    fuel,
    omega (arith, length-append (cabecera_carpeta n) (concat rest)),
    recibir_folder fuel n rest fs w,
  )
  recibir_entrada fuel n (some (file c)) rest fs w a h = (
    fuel,
    omega (
      arith,
      length-append (cabecera_archivo n (length c)) (concat (send_file c ++ rest)),
      length-concat_append (send_file c) rest,
    ),
    recibir_file fuel n c rest fs w a,
  )

  module _ (opens : (p : Bytes) → server_open p ≡ true) where
    recibir-enviados :
        (ns : List Bytes) (fuel : ℕ) (fs : FileSystem)
        → length (concat (enviados ns)) < fuel
        → Abre ns fs
        → recibir fuel (enviados ns) fs ≡ guardar ns fs
    unfolding enviar_entradas guardar concat
    recibir-enviados ns zero fs h a = absurd (omega arith)
    recibir-enviados [] (suc fuel) fs h a = recibir_fin fuel fs
    recibir-enviados (n ∷ ns) (suc fuel) fs h a =
        go (es_punto n) (server_open (ruta nombre n)) (opens (ruta nombre n)) (recibir-enviados ns)
          h a.2
      where
        go :
            (b ok : Bool)
            → ok ≡ true
            → ((fuel : ℕ) (fs : FileSystem)
                → length (concat (enviados ns)) < fuel
                → Abre ns fs
                → recibir fuel (enviados ns) fs ≡ guardar ns fs)
            → length (
                concat (
                  if b
                  then enviados ns
                  else enviar_entrada ok n (sfs (ruta nombre n)) ++ enviados ns))
              < suc fuel
            → Abre ns (guardar_si b n fs)
            → recibir
                (suc fuel)
                (if b
                  then enviados ns
                  else enviar_entrada ok n (sfs (ruta nombre n)) ++ enviados ns)
                fs
              ≡ guardar ns (guardar_si b n fs)
        go true ok o ih k b = ih (suc fuel) fs k b
        go false false o ih k b = absurd (cc o)
        go false true o ih k b =
            let (fuel', m, e) =
              recibir_entrada fuel n (sfs (ruta nombre n)) (enviados ns) fs a.0 a.1 k in
            e ∙ ih fuel' (guardar_si false n fs) m b

-- A folder that a daemon sends, when each text it sends is received by itself, every file opens
-- at the daemon and at the client, the names are words of at most 255 bytes with no colon, the
-- sizes of the files fit their headers, and the client can make the folder: the client's files are those
-- that `guardar` writes. The fuel of the client's loop is enough.
pub recibir_carpeta-enviar_carpeta :
    (server_open can_open can_mkdir : Bytes → Bool) (held : Bytes × ℤ) (sfs fs fs' : FileSystem)
    (nombre : Bytes) (ns : List Bytes)
    → ((p : Bytes) → server_open p ≡ true)
    → sfs nombre ≡ some (folder ns)
    → mkdir can_mkdir (ruta descargas nombre) fs ≡ some fs'
    → Abre server_open can_open can_mkdir held sfs nombre ns fs'
    → recibir_carpeta can_open can_mkdir held nombre (enviar_carpeta server_open sfs nombre) fs
      ≡ guardar server_open can_open can_mkdir held sfs nombre ns fs'
unfolding recibir_carpeta enviar_carpeta
recibir_carpeta-enviar_carpeta server_open can_open can_mkdir held sfs fs fs' nombre ns o h k a =
    ap
      (λ n.
        recibir_carpeta can_open can_mkdir held nombre (enviar_carpeta_de server_open sfs nombre n)
          fs)
      h
    ∙ ap
        (λ m.
          con_mkdir can_open can_mkdir held nombre (enviar_entradas server_open sfs nombre ns) fs m)
        k
    ∙ recibir-enviados server_open can_open can_mkdir held sfs nombre o ns
        (suc (length (concat (enviar_entradas server_open sfs nombre ns)))) fs' (omega arith) a
