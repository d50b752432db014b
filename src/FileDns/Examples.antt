-- ===== src/FileDns/Examples.antt =====
-- The name server of dns_server.c at a small table.
use so_distribuidos.Prelude.{
  ℕ, some, [], ◌∷◌, ◌≡◌, refl, ap, arith, Bytes, pos, codes, length, find, modify, str_eq,
}
use so_distribuidos.FileDns.Service.{
  FileEntry, Table, name_of, set_lock, new_entry, Request, unlock_file, ok_reply, locked_msg, serve,
}
use so_distribuidos.FileDns.Locking.{write, write_exclusive}

abbrev notes : Bytes
notes = codes "notes"

abbrev e : FileEntry
e = new_entry notes (codes "10.0.0.1") (pos 9001)

abbrev t : Table
t = e ∷ []

named : Request → ℕ
named (unlock_file n) = length n
named _ = 0

write_exclusive_example :
    (serve (write notes) t ≡ some (modify name_of notes (set_lock 1) t, ok_reply e))
    × (serve (write notes) (modify name_of notes (set_lock 1) t)
        ≡ some (modify name_of notes (set_lock 1) t, locked_msg))
unfolding serve find modify str_eq named
write_exclusive_example =
    write_exclusive notes (unlock_file (codes "photos") ∷ []) t
      (modify name_of notes (set_lock 1) t) e refl refl
      ((λ h. absurd (omega (arith, ap named h))), tt) refl
