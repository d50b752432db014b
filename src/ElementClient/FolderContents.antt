-- ===== src/ElementClient/FolderContents.antt =====
-- What the client of cliente_nuevo.c has of a folder that a daemon of servidor_archivos_nuevo.c sent.
use so_distribuidos.Prelude.{
  Bool, true, false, Option, none, some, List, [], ◌∷◌, ◌≡◌, ◌≢◌, ◌⊎◌, inl, inr, refl, sym, ap, ◌∙◌,
  subst, All, Bytes, ℤ, Member,
}
use so_distribuidos.Transfer.Files.{
  Node, file, folder, special, FileSystem, es_carpeta, ruta, put_ne, put_self, write_file_self,
  write_file_ne,
}
use so_distribuidos.ElementServer.Daemon.{es_punto, enviar_carpeta}
use so_distribuidos.ElementClient.Folder.{descargas, or_same, mkdir_en, mkdir, recibir_carpeta}
use so_distribuidos.ElementClient.FolderTransfer.{
  AbreEntrada, guardar_entrada, guardar_si, guardar, Abre, recibir_carpeta-enviar_carpeta,
}

-- Where the client keeps an entry of the folder.
abbrev pub lugar : Bytes → Bytes → Bytes
lugar nombre n = ruta (ruta descargas nombre) n

-- No two entries have the same place at the client.
abbrev pub Separadas : Bytes → List Bytes → Type 0
Separadas nombre [] = Unit
Separadas nombre (n ∷ ns) = All (λ m. lugar nombre m ≢ lugar nombre n) ns × Separadas nombre ns

-- The client has what the server has: the bytes of a file, and a folder for a folder.
abbrev pub Copia : Option Node → Option Node → Type 0
Copia (some (file c)) o = o ≡ some (file c)
Copia (some (folder ns)) o = es_carpeta o ≡ true
Copia _ o = Unit

mkdir-other :
    (can_mkdir : Bytes → Bool) (p q : Bytes) (fs : FileSystem)
    → p ≢ q
    → or_same fs (mkdir can_mkdir p fs) q ≡ fs q
unfolding mkdir
mkdir-other can_mkdir p q fs h = go (can_mkdir p) (fs p)
  where
    go : (ok : Bool) (o : Option Node) → or_same fs (mkdir_en ok p fs o) q ≡ fs q
    go ok (some n) = refl
    go false none = refl
    go true none = put_ne p q (folder []) fs h

mkdir-folder :
    (can_mkdir : Bytes → Bool) (p : Bytes) (fs : FileSystem)
    → can_mkdir p ≡ true
    → (fs p ≡ none) ⊎ (es_carpeta (fs p) ≡ true)
    → es_carpeta (or_same fs (mkdir can_mkdir p fs) p) ≡ true
unfolding mkdir
mkdir-folder can_mkdir p fs h (inl e) = rw (h, e) (ap es_carpeta (put_self p (folder []) fs))
mkdir-folder can_mkdir p fs h (inr e) = go (can_mkdir p) (fs p) refl e
  where
    go :
        (ok : Bool) (o : Option Node)
        → fs p ≡ o
        → es_carpeta o ≡ true
        → es_carpeta (or_same fs (mkdir_en ok p fs o) p) ≡ true
    go ok none f g = absurd (cc g)
    go ok (some n) f g = ap es_carpeta f ∙ g

module _ (server_open can_open can_mkdir : Bytes → Bool) (held : Bytes × ℤ) (sfs : FileSystem)
    (nombre : Bytes) (makes : (p : Bytes) → can_mkdir p ≡ true) where
  abbrev guarda : List Bytes → FileSystem → FileSystem
  guarda = guardar server_open can_open can_mkdir held sfs nombre

  abbrev guarda_entrada : Bytes → Option Node → FileSystem → FileSystem
  guarda_entrada = guardar_entrada server_open can_open can_mkdir held sfs nombre

  abbrev guarda_si : Bool → Bytes → FileSystem → FileSystem
  guarda_si = guardar_si server_open can_open can_mkdir held sfs nombre

  entrada-other :
      (n q : Bytes) (o : Option Node) (fs : FileSystem)
      → lugar nombre n ≢ q
      → guarda_entrada n o fs q ≡ fs q
  entrada-other n q none fs h = refl
  entrada-other n q (some special) fs h = refl
  entrada-other n q (some (file c)) fs h = write_file_ne can_open (lugar nombre n) q c fs h
  entrada-other n q (some (folder ns)) fs h = mkdir-other can_mkdir (lugar nombre n) q fs h

  guarda_si-other :
      (b : Bool) (n q : Bytes) (fs : FileSystem) → lugar nombre n ≢ q → guarda_si b n fs q ≡ fs q
  guarda_si-other true n q fs h = refl
  guarda_si-other false n q fs h = entrada-other n q (sfs (ruta nombre n)) fs h

  guarda-other :
      (ns : List Bytes) (q : Bytes) (fs : FileSystem)
      → All (λ m. lugar nombre m ≢ q) ns
      → guarda ns fs q ≡ fs q
  unfolding guardar
  guarda-other [] q fs h = refl
  guarda-other (n ∷ ns) q fs h =
      guarda-other ns q (guarda_si (es_punto n) n fs) h.1 ∙ guarda_si-other (es_punto n) n q fs h.0

  -- Each entry has its place free, or a folder there that it is one too.
  abbrev pub Libres : List Bytes → FileSystem → Type 0
  Libres ns fs =
      (n : Bytes)
      → Member n ns
      → es_carpeta (sfs (ruta nombre n)) ≡ true
      → (fs (lugar nombre n) ≡ none) ⊎ (es_carpeta (fs (lugar nombre n)) ≡ true)

  abbrev Abren : List Bytes → FileSystem → Type 0
  Abren = Abre server_open can_open can_mkdir held sfs nombre

  entrada-Copia :
      (n : Bytes) (o : Option Node) (fs : FileSystem)
      → AbreEntrada server_open can_open can_mkdir held sfs nombre n o fs
      → (es_carpeta o ≡ true
          → (fs (lugar nombre n) ≡ none) ⊎ (es_carpeta (fs (lugar nombre n)) ≡ true))
      → Copia o (guarda_entrada n o fs (lugar nombre n))
  entrada-Copia n none fs a f = tt
  entrada-Copia n (some special) fs a f = tt
  entrada-Copia n (some (file c)) fs a f = write_file_self can_open (lugar nombre n) c fs a.0 a.1
  entrada-Copia n (some (folder ns)) fs a f =
      mkdir-folder can_mkdir (lugar nombre n) fs (makes (lugar nombre n)) (f refl)

  All-at : (P : Bytes → Type 0) (ns : List Bytes) (n : Bytes) → All P ns → Member n ns → P n
  All-at P [] n h m = elim m [ ]
  All-at P (x ∷ ns) n h (inl e) = subst P (sym e) h.0
  All-at P (x ∷ ns) n h (inr m) = All-at P ns n h.1 m

  Libres-tail :
      (n : Bytes) (ns : List Bytes) (fs : FileSystem)
      → Separadas nombre (n ∷ ns)
      → Libres (n ∷ ns) fs
      → Libres ns (guarda_si (es_punto n) n fs)
  Libres-tail n ns fs s f m k e =
      subst (λ o. (o ≡ none) ⊎ (es_carpeta o ≡ true))
        (sym (
          guarda_si-other (es_punto n) n (lugar nombre m) fs
            (λ d. All-at (λ x. lugar nombre x ≢ lugar nombre n) ns m s.0 k (sym d))))
        (f m (inr k) e)

  head-Copia :
      (n : Bytes) (ns : List Bytes) (fs : FileSystem)
      → Abren (n ∷ ns) fs
      → Separadas nombre (n ∷ ns)
      → Libres (n ∷ ns) fs
      → es_punto n ≡ false
      → Copia (sfs (ruta nombre n)) (guarda (n ∷ ns) fs (lugar nombre n))
  unfolding guardar
  head-Copia n ns fs a s f p =
      subst (Copia (sfs (ruta nombre n)))
        (sym (
          guarda-other ns (lugar nombre n) (guarda_si (es_punto n) n fs) s.0
          ∙ ap (λ b. guarda_si b n fs (lugar nombre n)) p))
        (entrada-Copia n (sfs (ruta nombre n)) fs a.1 (f n (inl refl)))

  guarda-Copia :
      (ns : List Bytes) (fs : FileSystem)
      → Abren ns fs
      → Separadas nombre ns
      → Libres ns fs
      → (n : Bytes) → Member n ns
      → es_punto n ≡ false
      → Copia (sfs (ruta nombre n)) (guarda ns fs (lugar nombre n))
  unfolding guardar
  guarda-Copia [] fs a s f n m p = elim m [ ]
  guarda-Copia (x ∷ ns) fs a s f n (inl e) p =
      subst (λ k. Copia (sfs (ruta nombre k)) (guarda (x ∷ ns) fs (lugar nombre k))) (sym e)
        (head-Copia x ns fs a s f (ap es_punto (sym e) ∙ p))
  guarda-Copia (x ∷ ns) fs a s f n (inr m) p =
      guarda-Copia ns (guarda_si (es_punto x) x fs) a.2 s.1 (Libres-tail x ns fs s f) n m p

-- A folder that a daemon sends, when each text it sends is received by itself, every file opens
-- at the daemon and at the client, the names are words of at most 255 bytes with no colon, the
-- sizes of the files fit their headers, mkdir succeeds where nothing stands yet, no two entries have the
-- same place at the client, and where a folder goes there is nothing or a folder: for every entry but "."
-- and "..", the client has under descargas_distribuidas and the folder's name a file with exactly the bytes
-- of the server's file, and a folder for a folder. The client's loop ends.
pub carpeta_llega :
    (server_open can_open can_mkdir : Bytes → Bool) (held : Bytes × ℤ) (sfs fs fs' : FileSystem)
    (nombre : Bytes) (ns : List Bytes)
    → ((p : Bytes) → server_open p ≡ true)
    → ((p : Bytes) → can_mkdir p ≡ true)
    → sfs nombre ≡ some (folder ns)
    → mkdir can_mkdir (ruta descargas nombre) fs ≡ some fs'
    → Abre server_open can_open can_mkdir held sfs nombre ns fs'
    → Separadas nombre ns
    → ((n : Bytes)
        → Member n ns
        → es_carpeta (sfs (ruta nombre n)) ≡ true
        → (fs' (lugar nombre n) ≡ none) ⊎ (es_carpeta (fs' (lugar nombre n)) ≡ true))
    → (n : Bytes) → Member n ns
    → es_punto n ≡ false
    → Copia (sfs (ruta nombre n)) (
        recibir_carpeta can_open can_mkdir held nombre
          (enviar_carpeta server_open sfs nombre)
          fs
          (lugar nombre n))
carpeta_llega server_open can_open can_mkdir held sfs fs fs' nombre ns o makes h k a s f n m p =
    subst (λ g. Copia (sfs (ruta nombre n)) (g (lugar nombre n)))
      (sym (
        recibir_carpeta-enviar_carpeta server_open can_open can_mkdir held sfs fs fs' nombre ns o h
          k a))
      (guarda-Copia server_open can_open can_mkdir held sfs nombre makes ns fs' a s f n m p)
