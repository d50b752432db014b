-- ===== src/ElementClient/Examples.antt =====
-- Sessions of the client of cliente_nuevo.c with small servers.
use so_distribuidos.Prelude.{
  ℕ, ◌⊎◌, inl, ap, subst, sym, Member, ◌≢◌, inr, true, Option, none, some, List, [], ◌∷◌, ◌++◌, ◌≡◌,
  refl, arith, Bytes, codes, pos, ℤ, str_eq, if◌then◌else◌, find, print_int, print_nat,
}
use so_distribuidos.Transfer.Loops.{Connection, concat}
use so_distribuidos.Transfer.Files.{
  file, folder, FileSystem, es_carpeta, ruta, put, put_self, write_file,
}
use so_distribuidos.ElementDns.Service.{
  tipo_archivo, EntradaElemento, nombre_de, entrada_nueva, set_bloqueado, Locales, ip_local,
  atender,
}
use so_distribuidos.ElementDns.Messages.{IsWord, pedir_desbloqueo}
use so_distribuidos.ElementServer.Daemon.{
  esta_registrado, manejar_cliente_daemon, enviar_carpeta, Marco, atender_comando,
}
use so_distribuidos.ElementClient.Folder.{mkdir, recibir_carpeta}
use so_distribuidos.ElementClient.FolderTransfer.{Abre}
use so_distribuidos.ElementClient.FolderContents.{lugar, Separadas, Copia, carpeta_llega}
use so_distribuidos.ElementClient.Request.{
  Ubicacion, Mundo, Entorno, pedir_actualizar, solicitar_elemento,
}
use so_distribuidos.ElementClient.Serving.{daemon_actualizar}
use so_distribuidos.ElementClient.System.{Sistema, Intacto, dns_de, conectar_de}
use so_distribuidos.ElementClient.Downloads.{path_de}
use so_distribuidos.ElementClient.Session.{sesion_escritura}
use so_distribuidos.ElementClient.Refused.{solicitar_rechazado}

machine : Unit {0}
unfolding find str_eq esta_registrado ruta mkdir concat print_int print_nat
machine = tt

abbrev notas : Bytes
notas = codes "notas"

abbrev servidas : FileSystem
servidas q = if str_eq notas q then some (file (codes "uno")) else none

abbrev vacias : FileSystem
vacias q = none

abbrev l : Locales
l = record {
  nombre = [];
  temp_ip = [];
  puerto = pos 0;
  tipo_str = [];
  comando = [];
  desborde = atender;
}

-- A build that has room behind comando.
abbrev marco : Marco
marco = record { comando = []; desborde = atender_comando (λ p. true) (notas ∷ []) }

abbrev e : EntradaElemento
e = entrada_nueva notas ip_local (pos 9001) tipo_archivo

abbrev u : Ubicacion
u = record { ip_servidor = []; puerto_servidor = pos 0; tipo_str = [] }

-- The user writes another text over the file.
abbrev v : Entorno
v = record {
  can_open = λ p. true;
  can_mkdir = λ p. true;
  ubicacion = u;
  held = ([], pos 0);
  editar = λ fs. put (path_de notas) (file (codes "dos")) fs;
}

abbrev sistema : Sistema
sistema = record { tabla = e ∷ []; archivos = servidas }

notas-IsWord : IsWord notas
notas-IsWord = ground arith

-- The first line of the contents arrives with the command, and only the second is kept.
daemon_actualizar_example :
    manejar_cliente_daemon
      (λ p. true)
      marco
      (notas ∷ [])
      ((pedir_actualizar notas ++ codes "\none") ∷ codes "dos" ∷ [])
      servidas
    ≡ record {
      archivos = write_file (λ p. true) notas (concat (codes "dos" ∷ [])) servidas;
      enviado = [];
      al_dns = some (pedir_desbloqueo notas);
    }
unfolding machine
daemon_actualizar_example =
    daemon_actualizar (λ p. true) marco (notas ∷ []) notas (codes "uno") (λ m s g h k. refl)
      notas-IsWord (omega arith) servidas refl refl (codes "\none") (codes "dos" ∷ []) refl
      (omega arith)

abbrev ninguno : Bytes → ℤ → List Bytes → Sistema → Option Connection × Sistema
ninguno ip p s r = (none, r)

abbrev bloqueada : Mundo Sistema
bloqueada = record {
  archivos = vacias;
  remoto = record { tabla = set_bloqueado 1 e ∷ []; archivos = servidas };
}

solicitar_rechazado_example :
    solicitar_elemento (dns_de l) ninguno v notas (codes "ESCRIBIR") bloqueada ≡ bloqueada
unfolding machine
solicitar_rechazado_example =
    solicitar_rechazado l ninguno v notas bloqueada (λ n t h. refl) notas-IsWord (omega arith)
      (inr (set_bloqueado 1 e, refl, refl))

intacto : Intacto l (λ p. true) marco (notas ∷ [])
intacto = record { escribir = λ n t h. refl; ordenes = λ m s g h k. refl }

-- Every text arrives by itself.
abbrev llega : List Bytes → Connection
llega s = s

sesion_escritura_example :
    let r' =
      (solicitar_elemento
        (dns_de l)
        (conectar_de l (pos 9001) (λ p. true) marco (notas ∷ []) llega)
        v
        notas
        (codes "ESCRIBIR")
        (record { archivos = vacias; remoto = sistema })).remoto in
    (r'.archivos notas ≡ some (file (codes "dos")))
    × ((q : Bytes) → notas ≢ q → r'.archivos q ≡ servidas q)
    × (find nombre_de notas r'.tabla ≡ some e)
unfolding machine
sesion_escritura_example =
    sesion_escritura l (pos 9001) (λ p. true) marco (notas ∷ []) llega (λ s. refl)
      (λ b s h k. (s, refl, refl)) intacto notas (codes "uno") v (λ c. codes "dos") vacias sistema
      notas-IsWord (omega arith) (omega arith) refl refl refl refl
      (λ fs h. put_self (path_de notas) (file (codes "dos")) fs) refl refl

abbrev fotos : Bytes
fotos = codes "fotos"

abbrev entradas : List Bytes
entradas = codes "." ∷ codes "a" ∷ codes "b" ∷ []

abbrev carpeta : FileSystem
carpeta q =
    if str_eq fotos q
    then some (folder entradas)
    else if str_eq (codes "fotos/a") q
    then some (file (codes "uno"))
    else if str_eq (codes "fotos/b") q
    then some (folder [])
    else none

abbrev creada : FileSystem
creada = put (path_de fotos) (folder []) vacias

entradas-Abre : Abre (λ p. true) (λ p. true) (λ p. true) ([], pos 0) carpeta fotos entradas creada
unfolding machine
entradas-Abre = (
  (ground arith, (omega arith, tt), omega arith),
  tt,
  (
    (ground arith, (omega arith, tt), omega arith),
    (refl, refl, omega arith),
    ((ground arith, (omega arith, tt), omega arith), tt, tt),
  ),
)

ultimo : Bytes → ℕ
ultimo [] = 0
ultimo (x ∷ []) = x
ultimo (x ∷ y ∷ b) = ultimo (y ∷ b)

libre :
    (n m : Bytes)
    → n ≡ m
    → (creada (lugar fotos m) ≡ none) ⊎ (es_carpeta (creada (lugar fotos m)) ≡ true)
    → (creada (lugar fotos n) ≡ none) ⊎ (es_carpeta (creada (lugar fotos n)) ≡ true)
libre n m q =
    subst (λ x. (creada (lugar fotos x) ≡ none) ⊎ (es_carpeta (creada (lugar fotos x)) ≡ true))
      (sym q)

libres :
    (n : Bytes)
    → Member n entradas
    → es_carpeta (carpeta (ruta fotos n)) ≡ true
    → (creada (lugar fotos n) ≡ none) ⊎ (es_carpeta (creada (lugar fotos n)) ≡ true)
unfolding machine
libres n (inl q) h = libre n (codes ".") q (inl refl)
libres n (inr (inl q)) h = libre n (codes "a") q (inl refl)
libres n (inr (inr (inl q))) h = libre n (codes "b") q (inl refl)
libres n (inr (inr (inr m))) h = elim m [ ]

entradas-Separadas : Separadas fotos entradas
unfolding machine ultimo
entradas-Separadas = (
  ((λ d. absurd (omega (arith, ap ultimo d))), ((λ d. absurd (omega (arith, ap ultimo d))), tt)),
  (((λ d. absurd (omega (arith, ap ultimo d))), tt), (tt, tt)),
)

carpeta_llega_example : Copia (carpeta (ruta fotos (codes "a"))) (
    recibir_carpeta
      (λ p. true)
      (λ p. true)
      ([], pos 0)
      fotos
      (enviar_carpeta (λ p. true) carpeta fotos)
      vacias
      (lugar fotos (codes "a")))
unfolding machine
carpeta_llega_example =
    carpeta_llega (λ p. true) (λ p. true) (λ p. true) ([], pos 0) carpeta vacias creada fotos
      entradas (λ p. refl) (λ p. refl) refl refl entradas-Abre entradas-Separadas libres (codes "a")
      (inr (inl refl)) refl
