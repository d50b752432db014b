-- ===== src/FileDns/Locking.antt =====
-- The table and the write locks of dns_server.c.
use so_distribuidos.Prelude.{
  find-modify_const, ℕ, ◌&&◌, Option, none, some, List, [], ◌∷◌, ◌≡◌, ◌≢◌, ◌⊎◌, inl, inr, refl, sym,
  ap, ◌∙◌, arith, Bool-cases, All, Bytes, codes, str_eq, str_eq_iff, ℤ, eqb_ℤ, ltb, ◌==◌, length,
  find, modify, map_some, find-modify_self, find-modify_ne, find-snoc_ne,
}
use so_distribuidos.FileDns.Service.{
  FileEntry, Table, name_of, set_lock, new_entry, table_size, Request, register_file, request_file,
  unlock_file, other, register_found, request_found, unlock_found, ok_reply, locked_msg, serve,
}

abbrev pub write : Bytes → Request
write n = request_file n (codes "WRITE")

-- The lock of a name, if the table has the name.
abbrev pub lock_of : Bytes → Table → Option ℕ
lock_of n t = map_some (λ e. e.lock) (find name_of n t)

abbrev pub after : (Table → Option Table) → Option (Table × Bytes) → Option Table
after f none = none
after f (some (t, m)) = f t

-- Requests one after another, as long as the server has a result.
abbrev pub run : List Request → Table → Option Table
run [] t = some t
run (r ∷ rs) t = after (run rs) (serve r t)

-- What holds of a result, if there is one.
abbrev pub Result {ℓ} : (Table → Bytes → Type ℓ) → Option (Table × Bytes) → Type ℓ
Result P none = Unit
Result P (some (t, m)) = P t m

lock-find :
    (n : Bytes) (t : Table) (k : ℕ)
    → lock_of n t ≡ some k
    → (e : FileEntry) × (find name_of n t ≡ some e) × (e.lock ≡ k)
lock-find n t k h = go (find name_of n t) refl h
  where
    go :
        (o : Option FileEntry)
        → find name_of n t ≡ o
        → map_some (λ e. e.lock) o ≡ some k
        → (e : FileEntry) × (find name_of n t ≡ some e) × (e.lock ≡ k)
    go none q h = cc
    go (some e) q h = (e, q, ground arith)

modify-lock :
    (n : Bytes) (b : ℕ) (t : Table) (k : ℕ)
    → lock_of n t ≡ some k
    → lock_of n (modify name_of n (set_lock b) t) ≡ some b
modify-lock n b t k h =
    let (e, q, l) = lock-find n t k h in
    rw (find-modify_self name_of n (set_lock b) t (λ x. refl), q) refl

same_name : (m n : Bytes) → (m ≡ n) ⊎ (m ≢ n)
same_name m n = elim (Bool-cases (str_eq m n)) [
  | inl e ↦ inl ((str_eq_iff m n).0 e)
  | inr e ↦ inr (λ d. ground (arith, str_eq_iff m n))
]

abbrev Locked : Bytes → Table → Bytes → Type 0
Locked n t m = lock_of n t ≡ some 1

register-Locked :
    (n fname ip : Bytes) (port : ℤ) (t : Table)
    → lock_of n t ≡ some 1
    → Result (Locked n) (serve (register_file fname ip port) t)
unfolding serve
register-Locked n fname ip port t h = elim (same_name fname n) [
  | inl d ↦ rw d held
  | inr d ↦ apart (find name_of fname t) d
]
  where
    held : Result (Locked n) (register_found (find name_of n t) n ip port t)
    held = let (e, q, l) = lock-find n t 1 h in rw (q, l) h

    apart :
        (o : Option FileEntry) → fname ≢ n → Result (Locked n) (register_found o fname ip port t)
    apart (some e) d = elim (Bool-cases ((e.lock == 0) && str_eq e.ip ip && eqb_ℤ e.port port)) [
      | inl b ↦ rw b (
          ap (map_some (λ e. e.lock))
            (find-modify_const name_of fname n (new_entry fname ip port) t refl d)
          ∙ h)
      | inr b ↦ rw b h
    ]
    apart none d = elim (Bool-cases (ltb (length t) table_size)) [
      | inl b ↦
          rw b
            (ap (map_some (λ e. e.lock)) (find-snoc_ne name_of n t (new_entry fname ip port) d) ∙ h)
      | inr b ↦ rw b tt
    ]

request-Locked :
    (n fname cmd : Bytes) (t : Table)
    → lock_of n t ≡ some 1
    → Result (Locked n) (serve (request_file fname cmd) t)
unfolding serve
request-Locked n fname cmd t h = go (find name_of fname t)
  where
    written : lock_of n (modify name_of fname (set_lock 1) t) ≡ some 1
    written = elim (same_name fname n) [
      | inl d ↦ rw d (modify-lock n 1 t 1 h)
      | inr d ↦
          ap (map_some (λ e. e.lock)) (find-modify_ne name_of fname n (set_lock 1) t (λ x. refl) d)
          ∙ h
    ]

    go : (o : Option FileEntry) → Result (Locked n) (request_found o fname cmd t)
    go none = h
    go (some e) = elim (Bool-cases (str_eq cmd (codes "WRITE") && (e.lock == 0))) [
      | inl b ↦ rw b written
      | inr b ↦
          rw b (elim (Bool-cases (str_eq cmd (codes "READ"))) [ inl c ↦ rw c h | inr c ↦ rw c h ])
    ]

unlock-Locked :
    (n fname : Bytes) (t : Table)
    → fname ≢ n
    → lock_of n t ≡ some 1
    → Result (Locked n) (serve (unlock_file fname) t)
unfolding serve
unlock-Locked n fname t d h = go (find name_of fname t)
  where
    go : (o : Option FileEntry) → Result (Locked n) (unlock_found o fname t)
    go none = h
    go (some e) =
        ap (map_some (λ e. e.lock)) (find-modify_ne name_of fname n (set_lock 0) t (λ x. refl) d)
        ∙ h

serve-Locked :
    (n : Bytes) (r : Request) (t : Table)
    → r ≢ unlock_file n
    → lock_of n t ≡ some 1
    → Result (Locked n) (serve r t)
unfolding serve
serve-Locked n (register_file fname ip port) t d h = register-Locked n fname ip port t h
serve-Locked n (request_file fname cmd) t d h = request-Locked n fname cmd t h
serve-Locked n (unlock_file fname) t d h = unlock-Locked n fname t (λ e. d (ap unlock_file e)) h
serve-Locked n other t d h = h

run-Locked :
    (n : Bytes) (rs : List Request) (t t' : Table)
    → lock_of n t ≡ some 1
    → All (λ r. r ≢ unlock_file n) rs
    → run rs t ≡ some t'
    → lock_of n t' ≡ some 1
run-Locked n [] t t' h k e = ap (lock_at n) (sym e) ∙ h
  where
    lock_at : Bytes → Option Table → Option ℕ
    lock_at n none = none
    lock_at n (some t) = lock_of n t
run-Locked n (r ∷ rs) t t' h k e =
    go (serve r t) (serve-Locked n r t k.0 h) (λ u l. run-Locked n rs u t' l k.1) e
  where
    go :
        (o : Option (Table × Bytes))
        → Result (Locked n) o
        → ((u : Table) → lock_of n u ≡ some 1 → run rs u ≡ some t' → lock_of n t' ≡ some 1)
        → after (run rs) o ≡ some t'
        → lock_of n t' ≡ some 1
    go none l later q = cc
    go (some (u, m)) l later q = later u l q

-- A write request for a free file is granted, and as long as the server has results and nobody unlocks
-- the file, every later write request for it is answered LOCKED and changes nothing.
pub write_exclusive :
    (n : Bytes) (rs : List Request) (t t' : Table) (e : FileEntry)
    → find name_of n t ≡ some e
    → e.lock ≡ 0
    → All (λ r. r ≢ unlock_file n) rs
    → run (write n ∷ rs) t ≡ some t'
    → (serve (write n) t ≡ some (modify name_of n (set_lock 1) t, ok_reply e))
      × (serve (write n) t' ≡ some (t', locked_msg))
unfolding serve str_eq
write_exclusive n rs t t' e h l k q = (granted, refused)
  where
    granted : serve (write n) t ≡ some (modify name_of n (set_lock 1) t, ok_reply e)
    granted = rw (h, l) refl

    locked : lock_of n t' ≡ some 1
    locked =
        run-Locked n rs (modify name_of n (set_lock 1) t) t'
          (modify-lock n 1 t 0 (ap (map_some (λ e. e.lock)) h ∙ ap some l)) k
          (ap (after (run rs)) (sym granted) ∙ q)

    refused : serve (write n) t' ≡ some (t', locked_msg)
    refused = let (f, g, m) = lock-find n t' 1 locked in rw (g, m) refl
