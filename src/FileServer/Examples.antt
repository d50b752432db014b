-- ===== src/FileServer/Examples.antt =====
-- The file server of tp7 with one registered file.
use so_distribuidos.Prelude.{
  true, none, some, [], ◌∷◌, ◌≡◌, refl, arith, Bytes, codes, str_eq, if◌then◌else◌,
}
use so_distribuidos.Transfer.Loops.{Connection, concat}
use so_distribuidos.Transfer.Files.{file, FileSystem}
use so_distribuidos.FileServer.Service.{is_registered, Served, handle_client, unlock_request}
use so_distribuidos.FileServer.Client.{get_request, put_request}
use so_distribuidos.FileServer.Delivery.{put_get}

abbrev notes : Bytes
notes = codes "notes"

abbrev disk : FileSystem
disk q = if str_eq notes q then some (file (codes "one")) else none

-- Two lines, the second with no end, in two pieces.
abbrev pieces : Connection
pieces = codes "two\nth" ∷ codes "ree" ∷ []

put_get_example :
    (put_to : Served) × (get_from : Served) × (handle_client
        (λ p. true)
        []
        (notes ∷ [])
        (put_request notes ∷ pieces)
        disk
      ≡ some put_to)
    × (put_to.to_dns ≡ some (unlock_request notes))
    × (handle_client (λ p. true) [] (notes ∷ []) (get_request notes ∷ []) put_to.files
        ≡ some get_from)
    × (concat get_from.sent ≡ concat pieces)
unfolding str_eq is_registered concat
put_get_example =
    put_get (λ p. true) [] (notes ∷ []) notes (codes "one") pieces [] disk (ground arith)
      (omega arith) refl refl refl (omega arith)
