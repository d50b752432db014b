-- ===== src/ElementClient/Refused.antt =====
-- cliente_nuevo.c, when servidor_dns_nuevo.c does not grant the request.
use so_distribuidos.Prelude.{
  ◌==◌, ◌≤◌, false, Option, none, some, List, ◌≡◌, ◌⊎◌, inl, inr, refl, ap, ◌∙◌, Bytes, codes,
  str_eq, strip_prefix, starts_with, c_str, ℤ, length, take, find,
}
use so_distribuidos.Transfer.Loops.{Connection}
use so_distribuidos.ElementDns.Service.{
  EntradaElemento, nombre_de, Locales, Tabla, solicitar_hallado, bloqueado_msg, atender,
  manejar_cliente,
}
use so_distribuidos.ElementDns.Messages.{IsWord, pedir_elemento}
use so_distribuidos.ElementDns.Exchange.{EscribirCabe, manejar_cliente-pedir_elemento}
use so_distribuidos.ElementClient.Request.{
  Mundo, Entorno, leer_respuesta, segun, con_respuesta, solicitar_elemento,
}
use so_distribuidos.ElementClient.System.{Sistema, dns_de}

-- The element is not in the table, or it is locked.
abbrev pub Denegado : Bytes → Tabla → Type 0
Denegado n t =
    (find nombre_de n t ≡ none)
    ⊎ ((e : EntradaElemento) × (find nombre_de n t ≡ some e) × ((e.bloqueado == 0) ≡ false))

module _ (l : Locales) (conectar : Bytes → ℤ → List Bytes → Sistema → Option Connection × Sistema)
    (v : Entorno) (n : Bytes) (m : Mundo Sistema) where
  pedido :
      EscribirCabe l
      → IsWord n
      → length n ≤ 255
      → manejar_cliente l (pedir_elemento n (codes "ESCRIBIR")) m.remoto.tabla
        ≡ solicitar_hallado (find nombre_de n m.remoto.tabla) n (codes "ESCRIBIR") m.remoto.tabla
  unfolding atender
  pedido c w s = manejar_cliente-pedir_elemento l n m.remoto.tabla c w s

  respondido :
      (b : Bytes)
      → manejar_cliente l (pedir_elemento n (codes "ESCRIBIR")) m.remoto.tabla ≡ (m.remoto.tabla, b)
      → (segun
            (dns_de l)
            conectar
            v
            n
            (codes "ESCRIBIR")
            (leer_respuesta v.ubicacion (c_str (take 1023 b)))
            m.archivos
            m.remoto
          ≡ m)
      → solicitar_elemento (dns_de l) conectar v n (codes "ESCRIBIR") m ≡ m
  unfolding solicitar_elemento
  respondido b e h =
      ap
        (λ a.
          con_respuesta (dns_de l) conectar v n (codes "ESCRIBIR") m.archivos
            (some a.1, record { tabla = a.0; archivos = m.remoto.archivos }))
        e
      ∙ h

  -- A request for writing, of a name that is a word of at most 255 bytes, and that is not in the
  -- table or is locked, at a name server that is built so that the overrun of comando damages nothing
  -- it reads, changes nothing: not the client's files, not the table, and no server is
  -- reached, whatever a connection to one would do.
  pub solicitar_rechazado :
      EscribirCabe l
      → IsWord n
      → length n ≤ 255
      → Denegado n m.remoto.tabla
      → solicitar_elemento (dns_de l) conectar v n (codes "ESCRIBIR") m ≡ m
  unfolding leer_respuesta strip_prefix starts_with c_str str_eq
  solicitar_rechazado c w s (inl h) =
      respondido (codes "NO_ENCONTRADO\n")
        (pedido c w s ∙ ap (λ o. solicitar_hallado o n (codes "ESCRIBIR") m.remoto.tabla) h) refl
  solicitar_rechazado c w s (inr (e, h, k)) =
      respondido bloqueado_msg
        (pedido c w s
          ∙ ap (λ o. solicitar_hallado o n (codes "ESCRIBIR") m.remoto.tabla) h
          ∙ rw k refl)
        refl
