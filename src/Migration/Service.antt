-- ===== src/Migration/Service.antt =====
-- tp4-migracion-procesos: RecibeEnviaComandos of server.c and main of client.c. The compiler and what it
-- compiles are functions on the server's files: gcc gives a program, or none where it fails, and running a
-- program gives its output, or none where popen fails. Either may change the files.
use so_distribuidos.Prelude.{
  ℕ, suc, Bool, true, false, ◌&&◌, not, Option, none, some, List, [], ◌∷◌, Bytes, codes,
  if◌then◌else◌, length, take,
}
use so_distribuidos.Transfer.Loops.{Connection, concat, recv, recv_loop, send_loop}
use so_distribuidos.Transfer.Files.{Node, file, FileSystem, es_carpeta, put, write_file}

abbrev pub codigo_c : Bytes
codigo_c = codes "codigo.c"

abbrev pub error_gcc : Bytes
error_gcc = codes "Error al compilar el archivo\n"

abbrev pub error_popen : Bytes
error_popen = codes "Error al ejecutar el archivo\n"

-- What the server's calls give.
pub record Maquina (P : Type 0) : Type 0 where
  pub can_open : Bytes → Bool
  pub write_ok : Bool
  pub gcc : Bytes → FileSystem → Option P × FileSystem
  pub corre : P → FileSystem → Option Bytes × FileSystem

module _ {P : Type 0} (m : Maquina P) where
  abbrev pub compila : Option Node → FileSystem → Option P × FileSystem
  compila (some (file c)) fs = m.gcc c fs
  compila _ fs = (none, fs)

  -- The server's files, and what it sends: none where the fuel of the loop over the output runs out.
  abbrev con_trozos : FileSystem → Option (List Bytes) → Option (FileSystem × List Bytes)
  con_trozos fs none = none
  con_trozos fs (some t) = some (fs, t)

  abbrev pub con_salida : Option Bytes × FileSystem → Option (FileSystem × List Bytes)
  con_salida (none, fs) = some (fs, error_popen ∷ [])
  con_salida (some out, fs) = con_trozos fs (send_loop 1023 (suc (length out)) out)

  abbrev pub con_programa : Option P × FileSystem → Option (FileSystem × List Bytes)
  con_programa (none, fs) = some (fs, error_gcc ∷ [])
  con_programa (some p, fs) = con_salida (m.corre p fs)

  abbrev pub puede_abrir : FileSystem → Bool
  puede_abrir fs = m.can_open codigo_c && not (es_carpeta (fs codigo_c))

  abbrev compila_en : FileSystem → Option (FileSystem × List Bytes)
  compila_en fs = con_programa (compila (fs codigo_c) fs)

  -- What one read gave. Where the write fails the file is left empty.
  abbrev pub con_leido : Bytes × Connection → FileSystem → Option (FileSystem × List Bytes)
  con_leido ([], s) fs = some (fs, [])
  con_leido (x ∷ b, s) fs =
      if puede_abrir fs
      then (if m.write_ok
          then compila_en (write_file m.can_open codigo_c (x ∷ b) fs)
          else some (put codigo_c (file []) fs, []))
      else some (fs, [])

  unfoldable pub recibe_envia_comandos : Connection → FileSystem → Option (FileSystem × List Bytes)
  unfolding recv send_loop write_file
  recibe_envia_comandos s fs = con_leido (recv 1023 s) fs

-- The client's exit status, what it sends, and what it receives.
pub record Resultado : Type 0 where
  pub status : ℕ
  pub enviado : Option Bytes
  pub recibido : Bytes

abbrev con_recibido : Bytes → Option Bytes → Option Resultado
con_recibido b none = none
con_recibido b (some r) = some (record { status = 0; enviado = some b; recibido = r })

-- main of client.c, on what stands at codigo.c, and on what arrives. A file that is no regular one is taken
-- as one that cannot be read.
unfoldable pub cliente : Bool → Bool → Option Node → Connection → Option Resultado
unfolding recv_loop concat
cliente true true (some (file c)) s =
    con_recibido (take 1023 c) (recv_loop 1023 (suc (length (concat s))) s)
cliente true false (some (file c)) s = some (record { status = 1; enviado = none; recibido = [] })
cliente _ _ _ s = some (record { status = 1; enviado = none; recibido = [] })
