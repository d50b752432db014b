-- ===== src/ElementClient/Serving.antt =====
-- What the daemon of servidor_archivos_nuevo.c does with the requests of cliente_nuevo.c.
use so_distribuidos.Prelude.{
  zero, suc, ℕ, ◌+◌, ◌≤◌, Bool, true, false, none, some, List, [], ◌∷◌, ◌++◌, ◌≡◌, ◌≢◌, refl, sym,
  ap, ◌∙◌, arith, Bytes, Free, codes, str_eq, c_str, length, length-append, take, drop, take-all,
  is_space, ◌==◌, skip_spaces, scan_word, append_assoc, append-nil, Bool-cases, inl, inr,
}
use so_distribuidos.Transfer.Loops.{Connection, recv, concat, send_file, receive_file_lem}
use so_distribuidos.Transfer.Files.{file, FileSystem, write_file}
use so_distribuidos.ElementDns.Messages.{
  IsWord, EndsWord, scan_word-append, append-Free, IsWord-Free, pedir_desbloqueo,
}
use so_distribuidos.ElementServer.Daemon.{
  esta_registrado, enviar_archivo, es_vacio, con_mensaje, leer_comando, obtener, actualizar,
  atender_comando, manejar_cliente_daemon, recibir_archivo, Marco, OrdenesCaben, con_palabras,
  con_palabras_lem,
}
use so_distribuidos.ElementClient.Request.{pedir_obtener, pedir_actualizar}

-- A piece that fits is received whole.
pub recv_piece :
    (n : ℕ) (b : Bytes) (s : Connection) → b ≢ [] → length b ≤ n → recv n (b ∷ s) ≡ (b, s)
unfolding recv
recv_piece n [] s h k = absurd (h refl)
recv_piece n (x ∷ b) s h k = rw (take-all n (x ∷ b) k, drop-all n (x ∷ b) k) refl
  where
    drop-all : (n : ℕ) (b : Bytes) → length b ≤ n → drop n b ≡ []
    drop-all zero [] h = refl
    drop-all zero (x ∷ b) h = absurd (omega arith)
    drop-all (suc n) [] h = refl
    drop-all (suc n) (x ∷ b) h = drop-all n b (omega arith)

daemon_message :
    (can_open : Bytes → Bool) (marco : Marco) (reg : List Bytes) (b : Bytes) (s : Connection)
    (fs : FileSystem)
    → b ≢ []
    → length b ≤ 1024
    → manejar_cliente_daemon can_open marco reg (b ∷ s) fs
      ≡ con_palabras can_open marco reg (leer_comando marco.comando (c_str b)) s fs
unfolding manejar_cliente_daemon
daemon_message can_open marco reg [] s fs h k = absurd (h refl)
daemon_message can_open marco reg (x ∷ b) s fs h k =
    ap (λ r. con_mensaje can_open marco reg r fs) (recv_piece 1024 (x ∷ b) s h k)

c_str-append : (a b : Bytes) → Free 0 a → c_str (a ++ b) ≡ a ++ c_str b
unfolding c_str
c_str-append [] b h = refl
c_str-append (x ∷ a) b h = ground (arith, c_str-append a b)

EndsWord-c_str : (b : Bytes) → EndsWord b → EndsWord (c_str b)
unfolding c_str
EndsWord-c_str [] h = tt
EndsWord-c_str (x ∷ b) h = elim (Bool-cases (x == 0)) [ inl e ↦ rw e tt | inr e ↦ rw e h ]

same : (b : Bytes) → skip_spaces b ≡ b → scan_word b ≡ scan_word (32 ∷ b)
unfolding scan_word skip_spaces
same b h = refl

not_space : (x : ℕ) (b : Bytes) → is_space x ≡ false → skip_spaces (x ∷ b) ≡ x ∷ b
unfolding skip_spaces
not_space x b h = rw h refl

pub scan_word-start : (w r : Bytes) → IsWord w → EndsWord r → scan_word (w ++ r) ≡ some (w, r)
scan_word-start [] r h e = absurd h
scan_word-start (x ∷ w) r h e =
    same (x ∷ w ++ r) (not_space x (w ++ r) h.0.0) ∙ scan_word-append (x ∷ w) r h e

-- A command and a name behind it, in front of whatever cannot belong to the name.
pub leer_comando_words :
    (garbage cmd n d : Bytes)
    → IsWord cmd
    → IsWord n
    → EndsWord d
    → leer_comando garbage (c_str ((cmd ++ 32 ∷ n) ++ d)) ≡ (cmd, n)
unfolding leer_comando
leer_comando_words garbage cmd n d h k e =
    ap (leer_comando garbage) (
      c_str-append (cmd ++ 32 ∷ n) d
        (append-Free cmd (32 ∷ n) (IsWord-Free cmd h) (omega arith, IsWord-Free n k))
      ∙ append_assoc cmd (32 ∷ n) (c_str d))
    ∙ rw
        (
          scan_word-start cmd (32 ∷ n ++ c_str d) h refl,
          scan_word-append n (c_str d) k (EndsWord-c_str d e),
        )
        refl

pub IsWord-es_vacio : (n : Bytes) → IsWord n → es_vacio n ≡ false
IsWord-es_vacio [] h = absurd h
IsWord-es_vacio (x ∷ w) h = refl

pub pedido_fits :
    (p b : Bytes) → length p ≤ 20 → length b ≤ 1000 → take 1023 (p ++ 32 ∷ b) ≡ p ++ 32 ∷ b
pedido_fits p b h k = take-all 1023 (p ++ 32 ∷ b) (omega (arith, length-append p (32 ∷ b)))

module _ (can_open : Bytes → Bool) (marco : Marco) (reg : List Bytes) (n c : Bytes)
    (caben : OrdenesCaben can_open marco reg) (word : IsWord n) (short : length n ≤ 255)
    (fs : FileSystem) (is_file : fs n ≡ some (file c))
    (registered : esta_registrado n reg ≡ true) where
  atender_actualizar :
      (s : Connection)
      → atender_comando can_open reg (codes "ACTUALIZAR_ARCHIVO", n) s fs
        ≡ actualizar can_open n (some (file c)) s fs
  unfolding atender_comando str_eq
  atender_actualizar s = rw (registered, IsWord-es_vacio n word, is_file) refl

  atender_obtener :
      (s : Connection)
      → atender_comando can_open reg (codes "OBTENER_ELEMENTO", n) s fs
        ≡ obtener can_open n (some (file c)) fs
  unfolding atender_comando str_eq
  atender_obtener s = rw (registered, IsWord-es_vacio n word, is_file) refl

  -- An update of a registered regular file with a name that is a word of at most 255 bytes, in a build
  -- where the overrun of comando damages nothing that the handler reads, whose command arrives in one recv with a text d behind it, empty or starting with white space, all within the buffer:
  -- d is lost, the file is written with what arrives later, if it opens, and the name server is
  -- asked to unlock it.
  pub daemon_actualizar :
      (d : Bytes) (s : Connection)
      → EndsWord d
      → length n + length d ≤ 1000
      → manejar_cliente_daemon can_open marco reg ((pedir_actualizar n ++ d) ∷ s) fs ≡ record {
        archivos = write_file can_open n (concat s) fs;
        enviado = [];
        al_dns = some (pedir_desbloqueo n);
      }
  unfolding pedir_actualizar recibir_archivo
  daemon_actualizar d s e k =
      ap (λ p. manejar_cliente_daemon can_open marco reg ((p ++ d) ∷ s) fs)
        (pedido_fits (codes "ACTUALIZAR_ARCHIVO") n (omega arith) (omega arith))
      ∙ daemon_message can_open marco reg ((codes "ACTUALIZAR_ARCHIVO" ++ 32 ∷ n) ++ d) s fs
          (λ q. absurd (omega (arith, ap length q))) (omega (arith, length-append n d))
      ∙ ap (λ m. con_palabras can_open marco reg m s fs)
          (leer_comando_words marco.comando (codes "ACTUALIZAR_ARCHIVO") n d (ground arith) word e)
      ∙ con_palabras_lem can_open marco reg (codes "ACTUALIZAR_ARCHIVO", n) s fs caben (omega arith)
          short
      ∙ atender_actualizar s
      ∙ ap
          (λ b. record {
            archivos = write_file can_open n b fs;
            enviado = [];
            al_dns = some (pedir_desbloqueo n);
          })
          (receive_file_lem s)

  -- A request for a file is answered with its bytes.
  pub daemon_obtener :
      (s : Connection)
      → can_open n ≡ true
      → manejar_cliente_daemon can_open marco reg (pedir_obtener n ∷ s) fs
        ≡ record { archivos = fs; enviado = send_file c; al_dns = none }
  unfolding pedir_obtener enviar_archivo
  daemon_obtener s k =
      ap (λ p. manejar_cliente_daemon can_open marco reg (p ∷ s) fs)
        (pedido_fits (codes "OBTENER_ELEMENTO") n (omega arith) (omega arith)
          ∙ sym (append-nil (codes "OBTENER_ELEMENTO" ++ 32 ∷ n)))
      ∙ daemon_message can_open marco reg ((codes "OBTENER_ELEMENTO" ++ 32 ∷ n) ++ []) s fs
          (λ q. absurd (omega (arith, ap length q))) (omega (arith, length-append n []))
      ∙ ap (λ m. con_palabras can_open marco reg m s fs)
          (leer_comando_words marco.comando (codes "OBTENER_ELEMENTO") n [] (ground arith) word tt)
      ∙ con_palabras_lem can_open marco reg (codes "OBTENER_ELEMENTO", n) s fs caben (omega arith)
          short
      ∙ atender_obtener s
      ∙ rw (is_file, k) refl
