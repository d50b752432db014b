-- ===== src/FileServer/Delivery.antt =====
-- What file_server.c of tp7-sistema-archivos-distribuidos does with the requests of client.c.
use so_distribuidos.Prelude.{
  lt→ltb, ◌≤◌, Bool, true, none, some, List, [], ◌∷◌, ◌++◌, ◌≡◌, refl, sym, ap, ◌∙◌, arith,
  append-nil, Bytes, Free, codes, str_eq, c_str, length, length-append,
}
use so_distribuidos.Transfer.Loops.{Connection, concat, receive_file_lem}
use so_distribuidos.Transfer.Files.{file, FileSystem, put, put_self}
use so_distribuidos.ElementDns.Messages.{IsWord}
use so_distribuidos.ElementServer.Daemon.{leer_comando}
use so_distribuidos.ElementClient.Serving.{
  recv_piece, leer_comando_words, pedido_fits, IsWord-es_vacio,
}
use so_distribuidos.FileServer.Lines.{send_text, concat-send_text}
use so_distribuidos.FileServer.Service.{
  is_registered, Served, serve_command, serve_fitting, with_message, handle_client, unlock_request,
}
use so_distribuidos.FileServer.Client.{get_request, put_request}

module _ (can_open : Bytes → Bool) (garbage : Bytes) (reg : List Bytes) (n : Bytes)
    (word : IsWord n) (short : length n ≤ 255) (registered : is_registered n reg ≡ true)
    (opens : can_open n ≡ true) where
  -- A request that arrives by itself.
  handle_message :
      (cmd : Bytes) (s : Connection) (fs : FileSystem)
      → IsWord cmd
      → 1 ≤ length cmd
      → length cmd ≤ 15
      → handle_client can_open garbage reg ((cmd ++ 32 ∷ n) ∷ s) fs
        ≡ serve_command can_open reg (cmd, n) s fs
  unfolding handle_client serve_fitting
  handle_message cmd s fs w k h =
      ap (λ r. with_message can_open garbage reg r fs)
        (recv_piece 1024 (cmd ++ 32 ∷ n) s
          (λ e. absurd (omega (arith, ap length e, length-append cmd (32 ∷ n))))
          (omega (arith, length-append cmd (32 ∷ n))))
      ∙ fits
      ∙ ap (λ m. serve_fitting can_open reg m s fs)
          (ap (λ b. leer_comando garbage (c_str b)) (sym (append-nil (cmd ++ 32 ∷ n)))
            ∙ leer_comando_words garbage cmd n [] w word tt)
      ∙ both_fit
    where
      fits :
          with_message can_open garbage reg (cmd ++ 32 ∷ n, s) fs
          ≡ serve_fitting can_open reg (leer_comando garbage (c_str (cmd ++ 32 ∷ n))) s fs
      fits = ground (arith, length-append cmd (32 ∷ n))

      both_fit : serve_fitting can_open reg (cmd, n) s fs ≡ serve_command can_open reg (cmd, n) s fs
      both_fit = rw (lt→ltb (length cmd) 16 (omega arith), lt→ltb (length n) 256 (omega arith)) refl

  handle_put :
      (c : Bytes) (s : Connection) (fs : FileSystem)
      → fs n ≡ some (file c)
      → handle_client can_open garbage reg (put_request n ∷ s) fs
        ≡ some (record {
          files = put n (file (concat s)) fs;
          sent = [];
          to_dns = some (unlock_request n);
        })
  unfolding put_request serve_command str_eq
  handle_put c s fs f =
      ap (λ m. handle_client can_open garbage reg (m ∷ s) fs)
        (pedido_fits (codes "PUT_FILE") n (omega arith) (omega arith))
      ∙ handle_message (codes "PUT_FILE") s fs (ground arith) (omega arith) (omega arith)
      ∙ rw (registered, IsWord-es_vacio n word, opens, f, receive_file_lem s) refl

  handle_get :
      (c : Bytes) (s : Connection) (fs : FileSystem)
      → fs n ≡ some (file c)
      → handle_client can_open garbage reg (get_request n ∷ s) fs
        ≡ some (record { files = fs; sent = send_text c; to_dns = none })
  unfolding get_request serve_command str_eq
  handle_get c s fs f =
      ap (λ m. handle_client can_open garbage reg (m ∷ s) fs)
        (pedido_fits (codes "GET_FILE") n (omega arith) (omega arith))
      ∙ handle_message (codes "GET_FILE") s fs (ground arith) (omega arith) (omega arith)
      ∙ rw (registered, IsWord-es_vacio n word, opens, f) refl

-- A registered regular file that opens, with a name that is a word of at most 255 bytes, is
-- replaced by what follows a PUT_FILE that arrives by itself, in whatever pieces, and the name
-- server is asked to unlock it. When no byte of it is zero, a later GET_FILE that arrives by
-- itself is sent just those bytes.
pub put_get :
    (can_open : Bytes → Bool) (garbage : Bytes) (reg : List Bytes) (n c : Bytes) (s s' : Connection)
    (fs : FileSystem)
    → IsWord n
    → length n ≤ 255
    → is_registered n reg ≡ true
    → can_open n ≡ true
    → fs n ≡ some (file c)
    → Free 0 (concat s)
    → (put_to : Served) × (get_from : Served) × (handle_client can_open garbage reg
          (put_request n ∷ s)
          fs
        ≡ some put_to)
      × (put_to.to_dns ≡ some (unlock_request n))
      × (handle_client can_open garbage reg (get_request n ∷ s') put_to.files ≡ some get_from)
      × (concat get_from.sent ≡ concat s)
put_get can_open garbage reg n c s s' fs w h r o f z = (
  record { files = put n (file (concat s)) fs; sent = []; to_dns = some (unlock_request n) },
  record { files = put n (file (concat s)) fs; sent = send_text (concat s); to_dns = none },
  handle_put can_open garbage reg n w h r o c s fs f,
  refl,
  handle_get can_open garbage reg n w h r o (concat s) s' (put n (file (concat s)) fs)
      (put_self n (file (concat s)) fs),
  concat-send_text (concat s) z,
)
