-- ===== src/ElementDns/Examples.antt =====
-- The name server of servidor_dns_nuevo.c at small tables.
use so_distribuidos.Prelude.{
  length, ℕ, [], ◌∷◌, ◌≡◌, refl, arith, Bytes, pos, codes, find, modify, str_eq, strip_prefix,
  scan_word, span_word, skip_spaces, scan_int, scan_signed, scan_nat, scan_digits, c_str,
}
use so_distribuidos.Locks.{run}
use so_distribuidos.ElementDns.Service.{
  tipo_archivo, tipo_carpeta, EntradaElemento, Tabla, entrada_nueva, Solicitud, desbloquear,
  Locales, leer_solicitud, registrar_elemento, desbloquear_elemento, atender, ip_local,
  manejar_cliente, cabe, con_solicitud,
}
use so_distribuidos.ElementDns.Table.{
  IsTabla, manejar_cliente-IsTabla, paso, EstaEn, elemento_permanece,
}

abbrev notas : Bytes
notas = codes "notas"

abbrev fotos : Bytes
fotos = codes "imagen"

abbrev e : EntradaElemento
e = entrada_nueva notas ip_local (pos 9001) tipo_archivo

abbrev t : Tabla
t = e ∷ []

abbrev l : Locales
l = record {
  nombre = [];
  temp_ip = [];
  puerto = pos 0;
  tipo_str = [];
  comando = [];
  desborde = atender;
}

abbrev pedido : Bytes
pedido = codes "REGISTRAR_ELEMENTO imagen 10.0.0.1 9001 CARPETA"

machine : Unit {0}
unfolding find modify str_eq strip_prefix scan_word span_word skip_spaces scan_int scan_signed
    scan_nat scan_digits c_str leer_solicitud registrar_elemento desbloquear_elemento atender
    manejar_cliente cabe con_solicitud
machine = tt

t-IsTabla : IsTabla t
unfolding machine
t-IsTabla = record { unique = (refl, tt); bounded = omega arith }

manejar_cliente-IsTabla_example : IsTabla (manejar_cliente l pedido t).0
unfolding machine
manejar_cliente-IsTabla_example = manejar_cliente-IsTabla l pedido t refl t-IsTabla

-- A run of the handler on a request to register a folder: the address that was sent is not kept.
manejar_cliente-registrar :
    manejar_cliente l pedido t
    ≡ (e ∷ entrada_nueva fotos ip_local (pos 9001) tipo_carpeta ∷ [], codes "OK\n")
unfolding machine
manejar_cliente-registrar = refl

elemento_permanece_example : EstaEn notas e (run paso ((l, pedido) ∷ []) t)
unfolding machine
elemento_permanece_example = elemento_permanece notas ((l, pedido) ∷ []) t e (refl, tt) refl

largo : Solicitud → ℕ
largo (desbloquear n) = length n
largo _ = 0
