-- ===== src/ElementClient/Answer.antt =====
-- How cliente_nuevo.c reads the answers of servidor_dns_nuevo.c.
use so_distribuidos.Prelude.{
  ◌+◌, ◌≤◌, some, ◌∷◌, ◌++◌, ◌≡◌, refl, ap, ◌∙◌, arith, Bytes, Free, codes, ℤ, length,
  length-append, take, take-all, c_str, c_str-Free, strip_prefix, skip_spaces, span_word, scan_word,
  scan_int, scan_int-print_int, print_int, print_int-Free,
}
use so_distribuidos.ElementDns.Service.{
  TipoElemento, tipo_archivo, tipo_carpeta, nombre_tipo, EntradaElemento, respuesta_ok,
}
use so_distribuidos.ElementDns.Messages.{
  IsWord, scan_word-append, append-Free, IsWord-Free, tipo-Free,
}
use so_distribuidos.ElementClient.Request.{Ubicacion, encontrado, leer_respuesta}

abbrev texto_ok : EntradaElemento → Bytes
texto_ok e = 32 ∷ e.ip ++ (32 ∷ print_int e.puerto ++ (32 ∷ nombre_tipo e.tipo ++ codes "\n"))

linea_tipo :
    (t : TipoElemento)
    → scan_word (32 ∷ nombre_tipo t ++ codes "\n") ≡ some (nombre_tipo t, codes "\n")
unfolding scan_word skip_spaces span_word
linea_tipo tipo_archivo = refl
linea_tipo tipo_carpeta = refl

numero :
    (p : ℤ) (t : TipoElemento)
    → scan_int (32 ∷ print_int p ++ (32 ∷ nombre_tipo t ++ codes "\n"))
      ≡ some (p, 32 ∷ nombre_tipo t ++ codes "\n")
unfolding scan_int skip_spaces
numero p t = scan_int-print_int p (32 ∷ nombre_tipo t ++ codes "\n") refl

largo_tipo : (t : TipoElemento) → length (nombre_tipo t ++ codes "\n") ≡ 8
largo_tipo tipo_archivo = refl
largo_tipo tipo_carpeta = refl

fin-Free : (t : TipoElemento) → Free 0 (nombre_tipo t ++ codes "\n")
fin-Free t = append-Free (nombre_tipo t) (codes "\n") (tipo-Free t) (omega arith, tt)

texto_ok-Free : (e : EntradaElemento) → IsWord e.ip → Free 0 (texto_ok e)
texto_ok-Free e w = (
  omega arith,
  append-Free e.ip _ (IsWord-Free e.ip w) (
    omega arith,
    append-Free (print_int e.puerto) _ (print_int-Free 0 e.puerto refl (omega arith))
        (omega arith, fin-Free e.tipo),
  ),
)

largo :
    (e : EntradaElemento)
    → length e.ip + length (print_int e.puerto) ≤ 1000
    → length (texto_ok e) ≤ 1015
largo e s = omega (
  arith,
  length-append e.ip (32 ∷ print_int e.puerto ++ (32 ∷ nombre_tipo e.tipo ++ codes "\n")),
  length-append (print_int e.puerto) (32 ∷ nombre_tipo e.tipo ++ codes "\n"),
  largo_tipo e.tipo,
)

respuesta_ok-texto :
    (e : EntradaElemento)
    → length e.ip + length (print_int e.puerto) ≤ 1000
    → respuesta_ok e ≡ codes "OK" ++ texto_ok e
unfolding respuesta_ok
respuesta_ok-texto e s =
    ap (λ b. codes "OK " ++ b)
      (take-all 1020 (e.ip ++ (32 ∷ print_int e.puerto ++ (32 ∷ nombre_tipo e.tipo ++ codes "\n")))
        (omega (arith, largo e s)))

leer_texto :
    (u : Ubicacion) (e : EntradaElemento)
    → IsWord e.ip
    → leer_respuesta u (codes "OK" ++ texto_ok e)
      ≡ encontrado
          (record { ip_servidor = e.ip; puerto_servidor = e.puerto; tipo_str = nombre_tipo e.tipo })
unfolding leer_respuesta strip_prefix
leer_texto u e w =
    rw
      (
        scan_word-append e.ip (32 ∷ print_int e.puerto ++ (32 ∷ nombre_tipo e.tipo ++ codes "\n")) w
            refl,
        numero e.puerto e.tipo,
        linea_tipo e.tipo,
      )
      refl

-- The client reads from the answer to a granted request the address, port and type of the element, whose
-- address is a word and fits the answer with the port.
pub respuesta_round_trip :
    (u : Ubicacion) (e : EntradaElemento)
    → IsWord e.ip
    → length e.ip + length (print_int e.puerto) ≤ 1000
    → leer_respuesta u (c_str (take 1023 (respuesta_ok e)))
      ≡ encontrado
          (record { ip_servidor = e.ip; puerto_servidor = e.puerto; tipo_str = nombre_tipo e.tipo })
respuesta_round_trip u e w s =
    ap (λ b. leer_respuesta u (c_str (take 1023 b))) (respuesta_ok-texto e s)
    ∙ ap (λ b. leer_respuesta u (c_str b))
        (take-all 1023 (codes "OK" ++ texto_ok e) (omega (arith, largo e s)))
    ∙ ap (leer_respuesta u) (
        c_str-Free (codes "OK" ++ texto_ok e) (
          append-Free (codes "OK") (texto_ok e) (omega arith, (omega arith, tt))
            (texto_ok-Free e w)))
    ∙ leer_texto u e w
