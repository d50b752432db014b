-- ===== src/ServerDns/Tables.antt =====
-- What the requests of dns.c do to its two tables.
use so_distribuidos.Prelude.{
  ◌+◌, ℕ, zero, suc, Bool, true, false, Option, none, some, List, [], ◌∷◌, ◌++◌, ◌≡◌, ◌<◌, ◌≤◌, ◌⊎◌,
  inl, inr, refl, sym, ap, ◌∙◌, arith, Bool-cases, Bytes, codes, str_eq_iff, ℤ, ltb, ltb→lt, ◌==◌,
  if◌then◌else◌, length, length-append, get_elem?, get_elem?-lt, get_elem?-snoc_cases, find, Unique,
  Unique-snoc, find-snoc_self, map_some,
}
use so_distribuidos.ServerDns.Service.{
  ServidorArchivos, ArchivoDirectorio, Tablas, nombre_de, max_servers, max_files, primer_servidor,
  es_servidor, es_disponible_en, marcar_disponible, servidor_nuevo, registrar_servidor_hallado,
  registrar_servidor, archivo_nuevo, servidor_disponible, registrar_archivo_hallado,
  registrar_archivo_directorio, Solicitud, servidor, archivo, mal_formato, no_reconocida, ok_msg,
  archivo_de, atender,
}

-- Each server knows its own index, each file has a server, no file name stands twice, and both tables fit their arrays.
pub record IsTablas (s : Tablas) : Type 0 where
  pub indexed : (i : ℕ) (v : ServidorArchivos) → get_elem? s.servidores i ≡ some v → v.indice ≡ i
  pub served :
      (j : ℕ) (a : ArchivoDirectorio)
      → get_elem? s.archivos j ≡ some a
      → a.indice_servidor < length s.servidores
  pub unique : Unique nombre_de s.archivos
  pub servers_fit : length s.servidores ≤ max_servers
  pub files_fit : length s.archivos ≤ max_files

length-marcar : (i : ℕ) (t : List ServidorArchivos) → length (marcar_disponible i t) ≡ length t
unfolding marcar_disponible
length-marcar i [] = refl
length-marcar zero (v ∷ t) = refl
length-marcar (suc i) (v ∷ t) = ap suc (length-marcar i t)

marcar-indice :
    (i : ℕ) (t : List ServidorArchivos) (j : ℕ) (v : ServidorArchivos)
    → get_elem? (marcar_disponible i t) j ≡ some v
    → (w : ServidorArchivos) × (get_elem? t j ≡ some w) × (v.indice ≡ w.indice)
unfolding marcar_disponible
marcar-indice i [] j v h = cc
marcar-indice zero (w ∷ t) zero v h = (w, refl, ground arith)
marcar-indice zero (w ∷ t) (suc j) v h = (v, h, refl)
marcar-indice (suc i) (w ∷ t) zero v h = (v, h, refl)
marcar-indice (suc i) (w ∷ t) (suc j) v h = marcar-indice i t j v h

hit_cases :
    (b : Bool) (o : Option ℕ) (i : ℕ)
    → (if b then some 0 else map_some suc o) ≡ some i
    → ((b ≡ true) × (i ≡ 0)) ⊎ ((j : ℕ) × (o ≡ some j) × (i ≡ suc j))
hit_cases true o i h = inl (refl, ground arith)
hit_cases false none i h = cc
hit_cases false (some j) i h = inr (j, refl, ground arith)

-- Where the search stops there is a server that the test takes.
pub primer-get :
    (es : ServidorArchivos → Bool) (t : List ServidorArchivos) (i : ℕ)
    → primer_servidor es t ≡ some i
    → (v : ServidorArchivos) × (get_elem? t i ≡ some v) × (es v ≡ true)
unfolding primer_servidor
primer-get es [] i h = cc
primer-get es (v ∷ t) i h = elim (hit_cases (es v) (primer_servidor es t) i h) [
  | inl (e, z) ↦ (v, ap (get_elem? (v ∷ t)) z, e)
  | inr (j, q, z) ↦ let (w, k, e) = primer-get es t j q in (w, ap (get_elem? (v ∷ t)) z ∙ k, e)
]

servidor-IsTablas :
    (o : Option ℕ) (ip : Bytes) (puerto : ℤ) (s : Tablas)
    → IsTablas s
    → IsTablas (record {
      servidores = (registrar_servidor_hallado o ip puerto s.servidores).1;
      archivos = s.archivos;
    })
servidor-IsTablas (some i) ip puerto s h = record {
  indexed = λ j v g. let (w, k, e) = marcar-indice i s.servidores j v g in e ∙ h.indexed j w k;
  served = λ j a g. omega (arith, h.served j a g, length-marcar i s.servidores);
  unique = h.unique;
  servers_fit = omega (arith, h.servers_fit, length-marcar i s.servidores);
  files_fit = h.files_fit;
}
servidor-IsTablas none ip puerto s h = elim (Bool-cases (ltb (length s.servidores) max_servers)) [
  | inl b ↦ rw b (record {
    indexed = λ j v g.
        elim (get_elem?-snoc_cases s.servidores j (servidor_nuevo ip puerto (length s.servidores)) v
          g) [ inl k ↦ h.indexed j v k | inr (e, f) ↦ sym (ap (λ w. w.indice) f) ∙ sym e ];
    served = λ j a g. omega (arith, h.served j a g, grown);
    unique = h.unique;
    servers_fit = omega (arith, ltb→lt (length s.servidores) max_servers b, grown);
    files_fit = h.files_fit;
  })
  | inr b ↦ rw b h
]
  where
    grown :
        length (s.servidores ++ servidor_nuevo ip puerto (length s.servidores) ∷ [])
        ≡ length s.servidores + 1
    grown = length-append s.servidores (servidor_nuevo ip puerto (length s.servidores) ∷ [])

archivo-IsTablas :
    (o : Option ArchivoDirectorio) (nombre : Bytes) (i d : ℕ) (s : Tablas)
    → find nombre_de nombre s.archivos ≡ o
    → i < length s.servidores
    → IsTablas s
    → IsTablas (registrar_archivo_hallado o nombre i d s).1
archivo-IsTablas (some a) nombre i d s k l h = h
archivo-IsTablas none nombre i d s k l h = elim (Bool-cases (ltb (length s.archivos) max_files)) [
  | inl b ↦ rw b (record {
    indexed = h.indexed;
    served = λ j a g. elim (get_elem?-snoc_cases s.archivos j (archivo_nuevo nombre i d) a g) [
      | inl q ↦ h.served j a q
      | inr (e, f) ↦ omega (arith, l, ap (λ x. x.indice_servidor) f)
    ];
    unique = Unique-snoc nombre_de s.archivos (archivo_nuevo nombre i d) k h.unique;
    servers_fit = h.servers_fit;
    files_fit = omega (
      arith,
      ltb→lt (length s.archivos) max_files b,
      length-append s.archivos (archivo_nuevo nombre i d ∷ []),
    );
  })
  | inr b ↦ rw b h
]

archivo_directorio-IsTablas :
    (nombre : Bytes) (i d : ℕ) (s : Tablas)
    → IsTablas s
    → IsTablas (registrar_archivo_directorio nombre i d s).1
unfolding registrar_archivo_directorio
archivo_directorio-IsTablas nombre i d s h = go (get_elem? s.servidores i) refl
  where
    go :
        (o : Option ServidorArchivos)
        → get_elem? s.servidores i ≡ o
        → IsTablas
            (if servidor_disponible o
              then registrar_archivo_hallado (find nombre_de nombre s.archivos) nombre i d s
              else (false, s)).1
    go none e = h
    go (some v) e = elim (Bool-cases (v.disponible == 0)) [
      | inl b ↦ rw b h
      | inr b ↦ rw b (
          archivo-IsTablas (find nombre_de nombre s.archivos) nombre i d s refl
            (get_elem?-lt s.servidores i e) h)
    ]

pub archivo_de-IsTablas :
    (o : Option ℕ) (nombre : Bytes) (d : ℕ) (s : Tablas)
    → IsTablas s
    → IsTablas (archivo_de o nombre d s).0
archivo_de-IsTablas none nombre d s h = h
archivo_de-IsTablas (some i) nombre d s h = archivo_directorio-IsTablas nombre i d s h

pub atender-IsTablas :
    (peer : Option Bytes) (r : Solicitud) (s : Tablas) → IsTablas s → IsTablas (atender peer r s).0
unfolding atender registrar_servidor
atender-IsTablas peer (servidor ip puerto) s h =
    servidor-IsTablas (primer_servidor (es_servidor ip puerto) s.servidores) ip puerto s h
atender-IsTablas none (archivo nombre d) s h = h
atender-IsTablas (some ip) (archivo nombre d) s h =
    archivo_de-IsTablas (primer_servidor (es_disponible_en ip) s.servidores) nombre d s h
atender-IsTablas peer mal_formato s h = h
atender-IsTablas peer no_reconocida s h = h

-- The entry of a name points to a server at this address.
abbrev pub EstaEn : Bytes → Bytes → ℕ → Tablas → Type 0
EstaEn nombre ip d s =
    (a : ArchivoDirectorio) × (v : ServidorArchivos) × (find nombre_de nombre s.archivos ≡ some a)
    × (get_elem? s.servidores a.indice_servidor ≡ some v)
    × (v.ip ≡ ip)
    × (a.es_directorio ≡ d)

first : Bytes → ℕ
first [] = 0
first (x ∷ b) = x

abbrev pub respuesta : Bool → Bytes
respuesta ok = if ok then ok_msg else codes "ERROR\n"

pub was_ok : (b : Bool) → respuesta b ≡ ok_msg → b ≡ true
unfolding first
was_ok true e = refl
was_ok false e = absurd (omega (arith, ap first e))

module _ (nombre ip : Bytes) (d : ℕ) (s : Tablas) where
  hallado-EstaEn :
      (o : Option ArchivoDirectorio) (i : ℕ) (v : ServidorArchivos)
      → find nombre_de nombre s.archivos ≡ o
      → get_elem? s.servidores i ≡ some v
      → v.ip ≡ ip
      → (registrar_archivo_hallado o nombre i d s).0 ≡ true
      → EstaEn nombre ip d (registrar_archivo_hallado o nombre i d s).1
  hallado-EstaEn (some a) i v k g e ok = cc
  hallado-EstaEn none i v k g e ok = go ok
    where
      false_ne : false ≡ true → ⊥
      false_ne h = cc

      go :
          (registrar_archivo_hallado none nombre i d s).0 ≡ true
          → EstaEn nombre ip d (registrar_archivo_hallado none nombre i d s).1
      go = elim (Bool-cases (ltb (length s.archivos) max_files)) [
        | inl b ↦ rw b (λ ok. (
          archivo_nuevo nombre i d,
          v,
          find-snoc_self nombre_de s.archivos (archivo_nuevo nombre i d) k,
          g,
          e,
          refl,
        ))
        | inr b ↦ rw b (λ ok. absurd (false_ne ok))
      ]

  pub registrar-EstaEn :
      (i : ℕ) (v : ServidorArchivos)
      → get_elem? s.servidores i ≡ some v
      → v.ip ≡ ip
      → v.disponible == 0 ≡ false
      → (registrar_archivo_directorio nombre i d s).0 ≡ true
      → EstaEn nombre ip d (registrar_archivo_directorio nombre i d s).1
  unfolding registrar_archivo_directorio
  registrar-EstaEn i v g e a =
      rw (g, a) (hallado-EstaEn (find nombre_de nombre s.archivos) i v refl g e)

  archivo_de-EstaEn :
      (o : Option ℕ)
      → primer_servidor (es_disponible_en ip) s.servidores ≡ o
      → (archivo_de o nombre d s).1 ≡ ok_msg
      → EstaEn nombre ip d (archivo_de o nombre d s).0
  unfolding first
  archivo_de-EstaEn none k h = absurd (omega (arith, ap first h))
  archivo_de-EstaEn (some i) k h =
      let (v, g, e) = primer-get (es_disponible_en ip) s.servidores i k in
      registrar-EstaEn i v g ((str_eq_iff v.ip ip).0 (ground arith)) (ground arith) (was_ok _ h)

-- A file or a directory that is answered OK stands in the table with its kind, at a server that was
-- registered with the address the request came from.
pub archivo_en_servidor :
    (ip nombre : Bytes) (d : ℕ) (s : Tablas)
    → (atender (some ip) (archivo nombre d) s).1 ≡ ok_msg
    → EstaEn nombre ip d (atender (some ip) (archivo nombre d) s).0
unfolding atender
archivo_en_servidor ip nombre d s h =
    archivo_de-EstaEn nombre ip d s (primer_servidor (es_disponible_en ip) s.servidores) refl h
