-- ===== src/Migration/Delivery.antt =====
-- tp4-migracion-procesos: a program that goes from the client to the server, and its output back.
use so_distribuidos.Prelude.{
  ℕ, zero, suc, drop, ◌≤◌, Bool, true, false, Option, none, some, List, [], ◌∷◌, ◌≡◌, ◌≢◌, refl, ap,
  ◌∙◌, arith, append-nil, Bytes, if◌then◌else◌, length, take, length-take, take-all,
}
use so_distribuidos.Transfer.Loops.{Connection, concat, recv, recv_loop_lem, send_loop_lem}
use so_distribuidos.Transfer.Files.{
  file, FileSystem, es_carpeta, put, write_file, write_file_self, write_file_ne,
}
use so_distribuidos.Migration.Service.{
  codigo_c, error_gcc, error_popen, Maquina, compila, con_salida, con_programa, con_leido,
  recibe_envia_comandos, cliente,
}

-- What a source that is compiled and run prints, or the error, and the files that it leaves.
abbrev pub salida_de : Option Bytes × FileSystem → Bytes × FileSystem
salida_de (none, fs) = (error_popen, fs)
salida_de (some out, fs) = (out, fs)

abbrev pub programa_de : {P : Type 0} → Maquina P → Option P × FileSystem → Bytes × FileSystem
programa_de m (none, fs) = (error_gcc, fs)
programa_de m (some p, fs) = salida_de (m.corre p fs)

if_true {ℓ} : {A : Type ℓ} (b : Bool) {x : A} (y : A) → b ≡ true → (if b then x else y) ≡ x
if_true true y e = refl
if_true false y e = absurd (cc e)

module _ {P : Type 0} (m : Maquina P) where
  -- What the server sends is the output, or an error.
  salida_lem :
      (o : Option Bytes × FileSystem)
      → (t : List Bytes) × (con_salida m o ≡ some ((salida_de o).1, t))
        × (concat t ≡ (salida_de o).0)
  unfolding concat
  salida_lem (none, fs) = (error_popen ∷ [], refl, append-nil error_popen)
  salida_lem (some out, fs) =
      let (t, e, c, a) = send_loop_lem 1022 (suc (length out)) out (omega arith) in
      (t, rw e refl, c)

  programa_lem :
      (o : Option P × FileSystem)
      → (t : List Bytes) × (con_programa m o ≡ some ((programa_de m o).1, t))
        × (concat t ≡ (programa_de m o).0)
  unfolding concat
  programa_lem (none, fs) = (error_gcc ∷ [], refl, append-nil error_gcc)
  programa_lem (some p, fs) = salida_lem (m.corre p fs)

  -- The server has received some bytes.
  leido_lem :
      (b : Bytes) (s : Connection) (fs : FileSystem)
      → b ≢ []
      → m.can_open codigo_c ≡ true
      → es_carpeta (fs codigo_c) ≡ false
      → m.write_ok ≡ true
      → let r = programa_de m (m.gcc b (write_file m.can_open codigo_c b fs)) in
        (t : List Bytes) × (con_leido m (b, s) fs ≡ some (r.1, t)) × (concat t ≡ r.0)
  leido_lem [] s fs n o d w = absurd (n refl)
  leido_lem (x ∷ b) s fs n o d w =
      let (t, e, c) = programa_lem (m.gcc (x ∷ b) (write_file m.can_open codigo_c (x ∷ b) fs)) in
      (
        t,
        rw (o, d)
            (if_true m.write_ok (some (put codigo_c (file []) fs, [])) w
              ∙ ap (λ x'. con_programa m (compila m x' (write_file m.can_open codigo_c (x ∷ b) fs)))
                  (write_file_self m.can_open codigo_c (x ∷ b) fs o d)
              ∙ e),
        c,
      )

drop_all : (n : ℕ) (b : Bytes) → length b ≤ n → drop n b ≡ []
drop_all zero [] h = refl
drop_all zero (x ∷ b) h = absurd (omega arith)
drop_all (suc n) [] h = refl
drop_all (suc n) (x ∷ b) h = drop_all n b (omega arith)

one_piece : (b : Bytes) → b ≢ [] → length b ≤ 1023 → recv 1023 (b ∷ []) ≡ (b, [])
unfolding recv
one_piece [] n h = absurd (n refl)
one_piece (x ∷ b) n h = rw (take-all 1022 b (omega arith), drop_all 1022 b (omega arith)) refl

take_ne : (b : Bytes) → b ≢ [] → take 1023 b ≢ []
take_ne [] h = λ e. h refl
take_ne (x ∷ b) h = λ e. absurd (omega (arith, ap length e))

-- The client's regular file codigo.c is not empty, what fits one message arrives in one piece, and
-- what the server sends arrives; the server can open and write its codigo.c, which is no folder. Then gcc
-- runs where codigo.c is the first 1023 bytes of the client's file and every other file is as it was; the
-- server's files end as gcc and the program leave them; and the client, whose exit status is 0, has
-- received what these bytes print when they are compiled and run, or the error where gcc or popen
-- fails. Both loops over the output end.
pub migracion :
    {P : Type 0} (m : Maquina P) (llega vuelve : List Bytes → Connection) (c : Bytes)
    (fs : FileSystem)
    → ((b : Bytes) → b ≢ [] → length b ≤ 1023 → llega (b ∷ []) ≡ b ∷ [])
    → ((s : List Bytes) → concat (vuelve s) ≡ concat s)
    → c ≢ []
    → m.can_open codigo_c ≡ true
    → es_carpeta (fs codigo_c) ≡ false
    → m.write_ok ≡ true
    → (u : FileSystem) × (t : List Bytes) × (recibe_envia_comandos m (llega (take 1023 c ∷ [])) fs
        ≡ some ((programa_de m (m.gcc (take 1023 c) u)).1, t))
      × (cliente true true (some (file c)) (vuelve t)
          ≡ some (record {
            status = 0;
            enviado = some (take 1023 c);
            recibido = (programa_de m (m.gcc (take 1023 c) u)).0;
          }))
      × (u codigo_c ≡ some (file (take 1023 c)))
      × ((q : Bytes) → codigo_c ≢ q → u q ≡ fs q)
unfolding recibe_envia_comandos cliente
migracion m llega vuelve c fs one all n o d w =
    let (t, e, k) = leido_lem m (take 1023 c) [] fs filled o d w in
    (
      write_file m.can_open codigo_c (take 1023 c) fs,
      t,
      ap (λ s. con_leido m (recv 1023 s) fs) (one (take 1023 c) filled fits)
          ∙ ap (λ r. con_leido m r fs) (one_piece (take 1023 c) filled fits)
          ∙ e,
      rw (recv_loop_lem 1022 (suc (length (concat (vuelve t)))) (vuelve t) (omega arith), all t, k)
          refl,
      write_file_self m.can_open codigo_c (take 1023 c) fs o d,
      λ q x. write_file_ne m.can_open codigo_c q (take 1023 c) fs x,
    )
  where
    fits : length (take 1023 c) ≤ 1023
    fits = omega (arith, length-take 1023 c)

    filled : take 1023 c ≢ []
    filled = take_ne c n
