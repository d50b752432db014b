-- ===== src/FirstServer/Session.antt =====
-- file_server.c and dns.c: a server that is enabled and then registers a file.
use so_distribuidos.Prelude.{
  some_inj, ◌++◌, ◌<◌, lt→ltb, ℕ, zero, suc, Bool, true, not, Option, none, some, List, [], ◌∷◌,
  ◌≡◌, inl, inr, refl, sym, ap, ◌∙◌, subst, arith, Bool-cases, Bytes, codes, str_eq_iff, eqb_ℤ_iff,
  starts_with, strip_prefix, c_str, c_str-Free, ℤ, pos, ◌==◌, length, get_elem?,
  get_elem?-snoc_last, find, print_int, print_nat, print_nat-Free, scan_int, skip_spaces,
  scan_int-print_int,
}
use so_distribuidos.Transfer.Files.{FileSystem}
use so_distribuidos.ServerDns.Service.{
  ServidorArchivos, Tablas, nombre_de, max_servers, max_files, primer_servidor, es_servidor,
  es_disponible_en, marcar_disponible, disponer, servidor_nuevo, registrar_servidor_hallado,
  registrar_servidor, registrar_archivo_directorio, archivo, atender, archivo_de,
  respuesta_servidor, Desborde, manejar_cliente, ok_msg,
}
use so_distribuidos.ServerDns.Tables.{EstaEn, archivo_en_servidor, primer-get}
use so_distribuidos.ElementDns.Messages.{append-Free}
use so_distribuidos.ElementServer.Commands.{habilitar, subir_archivo, es_archivo}
use so_distribuidos.FirstServer.Commands.{
  max_registrados, Servidor, pedir_servidor, pedir_archivo, leer_indice, registrar_servidor_dns,
  registrar_archivo_dns, con_indice, con_respuesta, ejecutar,
}
use so_distribuidos.FirstServer.Exchange.{
  manejar_cliente-pedir_servidor, manejar_cliente-pedir_archivo,
}
use so_distribuidos.FirstServer.Registered.{dns_de, Nombrable, Direccion}

-- This server stands in the table, and is available.
abbrev pub Figura : Bytes → ℤ → ℕ → List ServidorArchivos → Type 0
Figura ip puerto i t =
    (v : ServidorArchivos) × (get_elem? t i ≡ some v)
    × (v.ip ≡ ip)
    × (v.puerto ≡ puerto)
    × (v.disponible ≡ 1)

marcar_lem :
    (i : ℕ) (t : List ServidorArchivos) (v : ServidorArchivos)
    → get_elem? t i ≡ some v
    → get_elem? (marcar_disponible i t) i ≡ some (disponer v)
unfolding marcar_disponible
marcar_lem i [] v h = cc
marcar_lem zero (w ∷ t) v h = ap (λ x. some (disponer x)) (some_inj h)
marcar_lem (suc i) (w ∷ t) v h = marcar_lem i t v h

hallado-Figura :
    (ip : Bytes) (puerto : ℤ) (t : List ServidorArchivos) (o : Option ℕ)
    → primer_servidor (es_servidor ip puerto) t ≡ o
    → length t < max_servers
    → (i : ℕ) × ((registrar_servidor_hallado o ip puerto t).0 ≡ some i)
      × Figura ip puerto i (registrar_servidor_hallado o ip puerto t).1
hallado-Figura ip puerto t (some i) h l =
    let (v, g, e) = primer-get (es_servidor ip puerto) t i h in
    (
      i,
      refl,
      (
        disponer v,
        marcar_lem i t v g,
        (str_eq_iff v.ip ip).0 (ground arith),
        (eqb_ℤ_iff v.puerto puerto).0 (ground arith),
        refl,
      ),
    )
hallado-Figura ip puerto t none h l = rw (lt→ltb (length t) max_servers l) (
  length t,
  refl,
  (
    servidor_nuevo ip puerto (length t),
    get_elem?-snoc_last t (servidor_nuevo ip puerto (length t)),
    refl,
    refl,
    refl,
  ),
)

number_line : (i : ℕ) → scan_int (32 ∷ print_int (pos i) ++ codes "\n") ≡ some (pos i, codes "\n")
unfolding scan_int skip_spaces
number_line i = scan_int-print_int (pos i) (codes "\n") refl

indice_round_trip : (i : ℕ) → leer_indice (c_str (codes "OK " ++ print_nat i ++ codes "\n")) ≡ pos i
unfolding leer_indice strip_prefix print_int
indice_round_trip i =
    ap leer_indice (
      c_str-Free (codes "OK " ++ print_nat i ++ codes "\n") (
        omega arith,
        (
          omega arith,
          (
            omega arith,
            append-Free (print_nat i) (codes "\n") (print_nat-Free 0 i refl) (omega arith, tt),
          ),
        ),
      ))
    ∙ rw (number_line i) refl

-- A server that the test takes is found, or one before it.
primer_total :
    (es : ServidorArchivos → Bool) (t : List ServidorArchivos) (i : ℕ) (v : ServidorArchivos)
    → get_elem? t i ≡ some v
    → es v ≡ true
    → (j : ℕ) × (primer_servidor es t ≡ some j)
unfolding primer_servidor
primer_total es [] i v h e = absurd (cc h)
primer_total es (w ∷ t) zero v h e = (0, rw (ap es (some_inj h) ∙ e) refl)
primer_total es (w ∷ t) (suc i) v h e =
    let (j, f) = primer_total es t i v h e in
    elim (Bool-cases (es w)) [ inl b ↦ (0, rw b refl) | inr b ↦ (suc j, rw (b, f) refl) ]

disponible-Figura :
    (ip : Bytes) (puerto : ℤ) (i : ℕ) (t : List ServidorArchivos)
    → Figura ip puerto i t
    → (j : ℕ) × (w : ServidorArchivos) × (primer_servidor (es_disponible_en ip) t ≡ some j)
      × (get_elem? t j ≡ some w)
      × (es_disponible_en ip w ≡ true)
disponible-Figura ip puerto i t (v, g, a, b, d) =
    let (j, f) =
      primer_total (es_disponible_en ip) t i v g (rw ((str_eq_iff v.ip ip).1 a, d) refl) in
    let (w, h, e) = primer-get (es_disponible_en ip) t j f in (j, w, f, h, e)

-- A name that is new, at an available server and with room, is registered.
registrado :
    (n : Bytes) (j : ℕ) (w : ServidorArchivos) (t : Tablas)
    → get_elem? t.servidores j ≡ some w
    → not (w.disponible == 0) ≡ true
    → find nombre_de n t.archivos ≡ none
    → length t.archivos < max_files
    → (archivo_de (some j) n 0 t).1 ≡ ok_msg
unfolding registrar_archivo_directorio
registrado n j w t g d f l = rw (g, d, f, lt→ltb (length t.archivos) max_files l) refl

abbrev respuesta_con : ℕ → Bytes
respuesta_con i = codes "OK " ++ print_nat i ++ codes "\n"

habilitado :
    (desborde : Desborde) (ip : Bytes) (puerto : ℤ) (t : Tablas)
    → Direccion ip puerto
    → length t.servidores < max_servers
    → (i : ℕ) × (u : Tablas) × (manejar_cliente desborde (some ip) (pedir_servidor ip puerto) t
        ≡ (u, respuesta_con i))
      × Figura ip puerto i u.servidores
      × (u.archivos ≡ t.archivos)
unfolding atender registrar_servidor
habilitado desborde ip puerto t w room =
    let (i, e, g) =
      hallado-Figura ip puerto t.servidores (primer_servidor (es_servidor ip puerto) t.servidores)
        refl room in
    (
      i,
      record { servidores = (registrar_servidor ip puerto t.servidores).1; archivos = t.archivos },
      manejar_cliente-pedir_servidor desborde (some ip) ip puerto t w.0 (w.1, w.2)
          ∙ ap
              (λ o. (
                record {
                  servidores = (registrar_servidor ip puerto t.servidores).1;
                  archivos = t.archivos;
                },
                respuesta_servidor o,
              ))
              e,
      g,
      refl,
    )

subido :
    (desborde : Desborde) (ip n : Bytes) (puerto : ℤ) (i : ℕ) (t : Tablas)
    → Figura ip puerto i t.servidores
    → Nombrable n
    → find nombre_de n t.archivos ≡ none
    → length t.archivos < max_files
    → (u : Tablas) × (manejar_cliente desborde (some ip) (pedir_archivo n) t ≡ (u, ok_msg))
      × EstaEn n ip 0 u
unfolding atender
subido desborde ip n puerto i t g (w, l) f space = (
  (atender (some ip) (archivo n 0) t).0,
  manejar_cliente-pedir_archivo desborde (some ip) n t w l
      ∙ ap (λ b. ((atender (some ip) (archivo n 0) t).0, b)) said,
  archivo_en_servidor ip n 0 t said,
)
  where
    said : (atender (some ip) (archivo n 0) t).1 ≡ ok_msg
    said =
        let (j, x, h, k, e) = disponible-Figura ip puerto i t.servidores g in
        ap (λ o. (archivo_de o n 0 t).1) h ∙ registrado n j x t k (ground (arith, e)) f space

-- A file server whose address is a word of at most 15 bytes, and from which its connections come, whose
-- port fits a request, is enabled while the table of servers has room, and then registers a regular file
-- whose name is a word of at most 255 bytes and is not in the table of files, with room in that table and in the server's own. It then has
-- the index of an entry of the table with its address and port, available; the name is added to its
-- list; and the name server has the name as a file of a server at that address.
pub alta :
    (desborde : Desborde) (ip n : Bytes) (puerto : ℤ) (fs : FileSystem) (ns : List Bytes)
    (s : Servidor Tablas)
    → Direccion ip puerto
    → length s.nombres_dns.servidores < max_servers
    → Nombrable n
    → es_archivo (fs n) ≡ true
    → find nombre_de n s.nombres_dns.archivos ≡ none
    → length s.nombres_dns.archivos < max_files
    → length s.registrados < max_registrados
    → (i : ℕ) × (s1 : Servidor Tablas) × (s2 : Servidor Tablas) × (ejecutar
          (dns_de desborde ip)
          ip
          puerto
          fs
          ns
          habilitar
          s
        ≡ some s1)
      × (s1.indice ≡ pos i)
      × Figura ip puerto i s1.nombres_dns.servidores
      × (ejecutar (dns_de desborde ip) ip puerto fs ns (subir_archivo n) s1 ≡ some s2)
      × (s2.registrados ≡ s.registrados ++ n ∷ [])
      × EstaEn n ip 0 s2.nombres_dns
unfolding ejecutar registrar_servidor_dns registrar_archivo_dns starts_with strip_prefix c_str
alta desborde ip n puerto fs ns s iw room nw isf fresh space own =
    let (i, t, e, g, a) = habilitado desborde ip puerto s.nombres_dns iw room in
    let (u, f, h) =
      subido desborde ip n puerto i t g nw (ap (find nombre_de n) a ∙ fresh)
        (subst (λ x. length x < max_files) (sym a) space) in
    (
      i,
      record { registrados = s.registrados; indice = pos i; nombres_dns = t },
      record { registrados = s.registrados ++ n ∷ []; indice = pos i; nombres_dns = u },
      ap (λ r. some (con_indice (dns_de desborde ip) ip puerto s (some r.1, r.0))) e
          ∙ ap (λ z. some (record { registrados = s.registrados; indice = z; nombres_dns = t }))
              (indice_round_trip i),
      refl,
      g,
      rw isf (
          ap
            (λ r.
              con_respuesta (dns_de desborde ip) ip puerto n
                (record { registrados = s.registrados; indice = pos i; nombres_dns = t })
                (some r.1, r.0))
            f
          ∙ rw (lt→ltb (length s.registrados) max_registrados own) refl),
      refl,
      h,
    )
