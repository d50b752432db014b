-- ===== src/ServerDns/Kept.antt =====
-- What a name has in the tables of dns.c stays through all further requests.
use so_distribuidos.Prelude.{
  ℕ, zero, suc, Option, none, some, List, [], ◌∷◌, ◌++◌, ◌≡◌, inl, inr, refl, ◌∙◌, arith,
  Bool-cases, Bytes, ℤ, ltb, length, get_elem?, get_elem?-lt, get_elem?-snoc, find,
}
use so_distribuidos.ServerDns.Service.{
  ServidorArchivos, ArchivoDirectorio, Tablas, nombre_de, max_servers, max_files, primer_servidor,
  es_servidor, es_disponible_en, marcar_disponible, servidor_nuevo, registrar_servidor_hallado,
  registrar_servidor, archivo_nuevo, servidor_disponible, registrar_archivo_hallado,
  registrar_archivo_directorio, Solicitud, servidor, archivo, mal_formato, no_reconocida,
  archivo_de, atender,
}
use so_distribuidos.ServerDns.Tables.{EstaEn}

find-snoc_kept :
    (n : Bytes) (t : List ArchivoDirectorio) (x : ArchivoDirectorio) {a : ArchivoDirectorio}
    → find nombre_de n t ≡ some a
    → find nombre_de n (t ++ x ∷ []) ≡ some a
unfolding find
find-snoc_kept n [] x h = cc
find-snoc_kept n (y ∷ t) x {a = a} h = ground (arith, find-snoc_kept n t x {a = a})

marcar-ip :
    (i : ℕ) (t : List ServidorArchivos) (j : ℕ) (v : ServidorArchivos)
    → get_elem? t j ≡ some v
    → (w : ServidorArchivos) × (get_elem? (marcar_disponible i t) j ≡ some w) × (w.ip ≡ v.ip)
unfolding marcar_disponible
marcar-ip i [] j v h = cc
marcar-ip zero (w ∷ t) zero v h = (record w { disponible = 1 }, refl, ground arith)
marcar-ip zero (w ∷ t) (suc j) v h = (v, h, refl)
marcar-ip (suc i) (w ∷ t) zero v h = (v, h, refl)
marcar-ip (suc i) (w ∷ t) (suc j) v h = marcar-ip i t j v h

pub servidor-kept :
    (o : Option ℕ) (ip : Bytes) (puerto : ℤ) (t : List ServidorArchivos) (j : ℕ)
    (v : ServidorArchivos)
    → get_elem? t j ≡ some v
    → (w : ServidorArchivos) × (get_elem? (registrar_servidor_hallado o ip puerto t).1 j ≡ some w)
      × (w.ip ≡ v.ip)
servidor-kept (some i) ip puerto t j v h = marcar-ip i t j v h
servidor-kept none ip puerto t j v h = elim (Bool-cases (ltb (length t) max_servers)) [
  | inl b ↦
      rw b
        (v, get_elem?-snoc t j (servidor_nuevo ip puerto (length t)) (get_elem?-lt t j h) ∙ h, refl)
  | inr b ↦ rw b (v, h, refl)
]

hallado-kept :
    (o : Option ArchivoDirectorio) (n m ip : Bytes) (i d k : ℕ) (s : Tablas)
    → EstaEn n ip d s
    → EstaEn n ip d (registrar_archivo_hallado o m i k s).1
hallado-kept (some x) n m ip i d k s e = e
hallado-kept none n m ip i d k s (a, v, f, g, p, q) =
    elim (Bool-cases (ltb (length s.archivos) max_files)) [
      | inl b ↦ rw b (a, v, find-snoc_kept n s.archivos (archivo_nuevo m i k) f, g, p, q)
      | inr b ↦ rw b (a, v, f, g, p, q)
    ]

pub archivo-kept :
    (o : Option ℕ) (n m ip : Bytes) (d k : ℕ) (s : Tablas)
    → EstaEn n ip d s
    → EstaEn n ip d (archivo_de o m k s).0
unfolding registrar_archivo_directorio
archivo-kept none n m ip d k s e = e
archivo-kept (some i) n m ip d k s e =
    elim (Bool-cases (servidor_disponible (get_elem? s.servidores i))) [
      | inl b ↦ rw b (hallado-kept (find nombre_de m s.archivos) n m ip i d k s e)
      | inr b ↦ rw b e
    ]

pub atender-EstaEn :
    (peer : Option Bytes) (q : Solicitud) (n ip : Bytes) (d : ℕ) (s : Tablas)
    → EstaEn n ip d s
    → EstaEn n ip d (atender peer q s).0
unfolding atender registrar_servidor
atender-EstaEn peer (servidor i p) n ip d s (a, v, f, g, e, k) =
    let (w, h, x) =
      servidor-kept (primer_servidor (es_servidor i p) s.servidores) i p s.servidores
        a.indice_servidor v g in
    (a, w, f, h, x ∙ e, k)
atender-EstaEn none (archivo m k) n ip d s e = e
atender-EstaEn (some x) (archivo m k) n ip d s e =
    archivo-kept (primer_servidor (es_disponible_en x) s.servidores) n m ip d k s e
atender-EstaEn peer mal_formato n ip d s e = e
atender-EstaEn peer no_reconocida n ip d s e = e
