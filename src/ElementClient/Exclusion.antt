-- ===== src/ElementClient/Exclusion.antt =====
-- cliente_nuevo.c, servidor_dns_nuevo.c and servidor_archivos_nuevo.c: the lock on an element while clients
-- take turns at it.
use so_distribuidos.Prelude.{
  update_self, update-ne, update_lem, ℕ, ◌==◌, ◌≤◌, Bool, true, false, Bool-cases, ◌≡◌, ◌≢◌, ◌⊎◌,
  inl, inr, refl, sym, ap, ◌∙◌, arith, Option, some, List, [], ◌∷◌, Bytes, codes, print_int, ℤ,
  length, find, find-modify_self, map_some, subst,
}
use so_distribuidos.Transfer.Loops.{Connection, concat, send_file, concat-send_file}
use so_distribuidos.Transfer.Files.{file, FileSystem, es_carpeta, write_file_self}
use so_distribuidos.ElementDns.Service.{
  EntradaElemento, nombre_de, set_bloqueado, Solicitud, desbloquear, Locales, entrada_nueva,
  ip_local, tipo_archivo,
}
use so_distribuidos.ElementDns.Messages.{IsWord}
use so_distribuidos.ElementDns.Entry.{atender-Cerrada}
use so_distribuidos.ElementServer.Daemon.{esta_registrado, Marco}
use so_distribuidos.ElementClient.Request.{Entorno, Ubicacion}
use so_distribuidos.ElementClient.Folder.{crear_carpeta_descargas, recibir_archivo}
use so_distribuidos.ElementClient.System.{Sistema, Intacto, dns_de, conectar_de}
use so_distribuidos.ElementClient.Downloads.{path_de, downloaded}
use so_distribuidos.ElementClient.Stretches.{Fase, libre, concedido, editando, Cliente, avanzar}
use so_distribuidos.ElementClient.Interleaving.{
  Red, Suceso, turno, peticion, devuelta, devuelta_en, contenido, contenido-append, suceder, corre,
  devueltas, tras_turno, update-libre,
}
use so_distribuidos.ElementClient.Turns

-- A request of another program that does not unlock the element.
abbrev pub Ajeno : Bytes → Suceso → Type 0
Ajeno n (turno i) = Unit {0}
Ajeno n (peticion s) = ¬ (s ≡ desbloquear n)

abbrev pub Ajenos : Bytes → List Suceso → Type 0
Ajenos n [] = Unit {0}
Ajenos n (s ∷ ss) = Ajeno n s × Ajenos n ss

module _ (l : Locales) (puerto : ℤ) (server_open : Bytes → Bool) (marco : Marco)
    (registrados : List Bytes) (llega : List Bytes → Connection)
    (todo : (s : List Bytes) → concat (llega s) ≡ concat s)
    (aparte : (b : Bytes) (s : List Bytes)
      → b ≢ []
      → length b ≤ 1023
      → (p : Connection) × (llega (b ∷ s) ≡ b ∷ p) × (concat p ≡ concat s))
    (intacto : Intacto l server_open marco registrados) (n : Bytes) (word : IsWord n)
    (short : length n ≤ 255) (port_short : length (print_int puerto) ≤ 900)
    (registered : esta_registrado n registrados ≡ true) (opens : server_open n ≡ true)
    (entorno : ℕ → Entorno) (f : ℕ → Bytes → Bytes)
    (client_open : (i : ℕ) → (entorno i).can_open (path_de n) ≡ true)
    (edits : (i : ℕ) (c : Bytes) (fs : FileSystem)
      → fs (path_de n) ≡ some (file c)
      → (entorno i).editar fs (path_de n) ≡ some (file (f i c))) where
  abbrev pub dns : Bytes → Sistema → Option Bytes × Sistema
  dns = dns_de l

  abbrev pub conectar : Bytes → ℤ → List Bytes → Sistema → Option Connection × Sistema
  conectar = conectar_de l puerto server_open marco registrados llega

  abbrev pub elemento : EntradaElemento
  elemento = entrada_nueva n ip_local puerto tipo_archivo

  abbrev pub ubicacion : Ubicacion
  ubicacion = record {
    ip_servidor = ip_local;
    puerto_servidor = puerto;
    tipo_str = codes "ARCHIVO";
  }

  abbrev pub avance : ℕ → FileSystem → Fase → Sistema → Cliente × Sistema
  avance i = avanzar dns conectar (entorno i) n

  -- The one client that has the element, granted or downloaded.
  abbrev pub Activo : Bytes → Cliente → Type 0
  Activo c k =
      (k.fase ≡ concedido ubicacion)
      ⊎ ((k.fase ≡ editando ubicacion) × (k.archivos (path_de n) ≡ some (file c)))

  -- The entry is unlocked and no client is at work, or it is locked, and at most one client is.
  abbrev pub Exclusivo : Bytes → Red → Type 0
  Exclusivo c x =
      ((find nombre_de n x.remoto.tabla ≡ some elemento) × ((j : ℕ) → (x.clientes j).fase ≡ libre))
      ⊎ ((find nombre_de n x.remoto.tabla ≡ some (set_bloqueado 1 elemento))
          × (((j : ℕ) → (x.clientes j).fase ≡ libre)
              ⊎ ((i : ℕ) × Activo c (x.clientes i)
                  × ((j : ℕ) → i ≢ j → (x.clientes j).fase ≡ libre))))

  pub record IsRed (c : Bytes) (x : Red) : Type 0 where
    pub contents : x.remoto.archivos n ≡ some (file c)
    pub no_folder : (j : ℕ) → es_carpeta ((x.clientes j).archivos (path_de n)) ≡ false
    pub exclusive : Exclusivo c x

  peticion-Exclusivo :
      (s : Solicitud) (c : Bytes) (x : Red)
      → ¬ (s ≡ desbloquear n)
      → Exclusivo c x
      → Exclusivo c (suceder dns conectar entorno n (peticion s) x)
  unfolding suceder
  peticion-Exclusivo s c x d (inl (h, z)) = elim (atender-Cerrada n s x.remoto.tabla elemento d h) [
    | inl k ↦ inl (k, z)
    | inr k ↦ inr (k, inl z)
  ]
  peticion-Exclusivo s c x d (inr (h, z)) =
      elim (atender-Cerrada n s x.remoto.tabla (set_bloqueado 1 elemento) d h) [
        | inl k ↦ inr (k, z)
        | inr k ↦ inr (k, z)
      ]

  -- What a turn in this phase has to give.
  abbrev Bien : ℕ → Bytes → Red → Fase → Type 0
  Bien i c x k =
      IsRed (contenido f (devuelta_en i k) c)
        (tras_turno dns conectar entorno n i x (avance i (x.clientes i).archivos k x.remoto))

  turno_granted :
      (i : ℕ) (c : Bytes) (x : Red)
      → IsRed c x
      → find nombre_de n x.remoto.tabla ≡ some elemento
      → ((j : ℕ) → (x.clientes j).fase ≡ libre)
      → Bien i c x libre
  turno_granted i c x v h z =
      rw
        (Turns.libre_granted l puerto server_open marco registrados llega todo aparte intacto n word
          short port_short registered opens entorno f client_open edits i (x.clientes i).archivos
          x.remoto h)
        (record {
          contents = v.contents;
          no_folder =
              update_lem x.clientes i (λ j k. es_carpeta (k.archivos (path_de n)) ≡ false) _
                (v.no_folder i) (λ j d. v.no_folder j);
          exclusive = inr (
            find-modify_self nombre_de n (set_bloqueado 1) x.remoto.tabla (λ y. refl)
                ∙ ap (map_some (set_bloqueado 1)) h,
            inr (
              i,
              inl (ap (λ k. k.fase) (update_self x.clientes i _)),
              λ j d. ap (λ k. k.fase) (update-ne x.clientes i j _ d) ∙ z j,
            ),
          );
        })

  turno_refused :
      (i : ℕ) (c : Bytes) (x : Red)
      → IsRed c x
      → find nombre_de n x.remoto.tabla ≡ some (set_bloqueado 1 elemento)
      → (x.clientes i).fase ≡ libre
      → Bien i c x libre
  turno_refused i c x v h z =
      rw
        (Turns.libre_refused l puerto server_open marco registrados llega todo aparte intacto n word
          short port_short registered opens entorno f client_open edits i (x.clientes i).archivos
          x.remoto h)
        (subst (λ g. IsRed c (record { remoto = x.remoto; clientes = g }))
          (sym (update-libre i x.clientes z)) v)

  turno_concedido :
      (i : ℕ) (c : Bytes) (x : Red)
      → IsRed c x
      → find nombre_de n x.remoto.tabla ≡ some (set_bloqueado 1 elemento)
      → ((j : ℕ) → i ≢ j → (x.clientes j).fase ≡ libre)
      → Bien i c x (concedido ubicacion)
  turno_concedido i c x v h z =
      rw
        (Turns.concedido_lem l puerto server_open marco registrados llega todo aparte intacto n word
          short port_short registered opens entorno f client_open edits i c (x.clientes i).archivos
          x.remoto v.contents)
        (record {
          contents = v.contents;
          no_folder =
              update_lem x.clientes i (λ j k. es_carpeta (k.archivos (path_de n)) ≡ false) _
                (ap es_carpeta copy) (λ j d. v.no_folder j);
          exclusive = inr (
            h,
            inr (
              i,
              inr (
                ap (λ k. k.fase) (update_self x.clientes i _),
                ap (λ k. k.archivos (path_de n)) (update_self x.clientes i _) ∙ copy,
              ),
              λ j d. ap (λ k. k.fase) (update-ne x.clientes i j _ d) ∙ z j d,
            ),
          );
        })
    where
      copy :
          recibir_archivo
            (entorno i).can_open
            n
            (llega (send_file c))
            (crear_carpeta_descargas (entorno i).can_mkdir (x.clientes i).archivos)
            (path_de n)
          ≡ some (file c)
      copy =
          downloaded (entorno i) n (llega (send_file c)) (x.clientes i).archivos word
            (client_open i) (v.no_folder i)
          ∙ ap (λ b. some (file b)) (todo (send_file c) ∙ concat-send_file c)

  turno_editando :
      (i : ℕ) (c : Bytes) (x : Red)
      → IsRed c x
      → find nombre_de n x.remoto.tabla ≡ some (set_bloqueado 1 elemento)
      → (x.clientes i).archivos (path_de n) ≡ some (file c)
      → ((j : ℕ) → i ≢ j → (x.clientes j).fase ≡ libre)
      → Bien i c x (editando ubicacion)
  turno_editando i c x v h k z =
      rw
        (Turns.editando_lem l puerto server_open marco registrados llega todo aparte intacto n word
          short port_short registered opens entorno f client_open edits i c (x.clientes i).archivos
          x.remoto v.contents k)
        (record {
          contents =
              write_file_self server_open n (f i c) x.remoto.archivos opens
                (ap es_carpeta v.contents);
          no_folder =
              update_lem x.clientes i (λ j k. es_carpeta (k.archivos (path_de n)) ≡ false) _
                (ap es_carpeta (edits i c (x.clientes i).archivos k)) (λ j d. v.no_folder j);
          exclusive = inl (
            find-modify_self nombre_de n (set_bloqueado 0) x.remoto.tabla (λ y. refl)
                ∙ ap (map_some (set_bloqueado 0)) h,
            λ j. elim (Bool-cases (i == j)) [
              | inl e ↦ rw e refl
              | inr e ↦ rw e (z j (λ d. ground (arith, e)))
            ],
          );
        })

  turno-Activo :
      (i : ℕ) (c : Bytes) (x : Red)
      → IsRed c x
      → find nombre_de n x.remoto.tabla ≡ some (set_bloqueado 1 elemento)
      → Activo c (x.clientes i)
      → ((j : ℕ) → i ≢ j → (x.clientes j).fase ≡ libre)
      → Bien i c x (x.clientes i).fase
  turno-Activo i c x v h (inl e) z = subst (Bien i c x) (sym e) (turno_concedido i c x v h z)
  turno-Activo i c x v h (inr (e, k)) z = subst (Bien i c x) (sym e) (turno_editando i c x v h k z)

  turno_otro :
      (i a : ℕ) (c : Bytes) (x : Red)
      → IsRed c x
      → find nombre_de n x.remoto.tabla ≡ some (set_bloqueado 1 elemento)
      → Activo c (x.clientes a)
      → ((j : ℕ) → a ≢ j → (x.clientes j).fase ≡ libre)
      → Bien i c x (x.clientes i).fase
  turno_otro i a c x v h k z = elim (Bool-cases (a == i)) [
    | inl e ↦
        turno-Activo i c x v h (subst (λ j. Activo c (x.clientes j)) (same e) k)
          (λ j d. z j (λ q. d (sym (same e) ∙ q)))
    | inr e ↦ subst (Bien i c x) (sym (z i (other e))) (turno_refused i c x v h (z i (other e)))
  ]
    where
      same : (a == i) ≡ true → a ≡ i
      same e = ground (arith, e)

      other : (a == i) ≡ false → a ≢ i
      other e = λ d. ground (arith, e, d)

  turno-IsRed :
      (i : ℕ) (c : Bytes) (x : Red) → IsRed c x → Exclusivo c x → Bien i c x (x.clientes i).fase
  turno-IsRed i c x v (inl (h, z)) = subst (Bien i c x) (sym (z i)) (turno_granted i c x v h z)
  turno-IsRed i c x v (inr (h, inl z)) =
      subst (Bien i c x) (sym (z i)) (turno_refused i c x v h (z i))
  turno-IsRed i c x v (inr (h, inr (a, k, z))) = turno_otro i a c x v h k z

  suceder-IsRed :
      (s : Suceso) (c : Bytes) (x : Red)
      → Ajeno n s
      → IsRed c x
      → IsRed (contenido f (devuelta s x) c) (suceder dns conectar entorno n s x)
  unfolding suceder
  suceder-IsRed (turno i) c x d v = turno-IsRed i c x v v.exclusive
  suceder-IsRed (peticion s) c x d v = record {
    contents = v.contents;
    no_folder = v.no_folder;
    exclusive = peticion-Exclusivo s c x d v.exclusive;
  }

  pub corre-IsRed :
      (ss : List Suceso) (c : Bytes) (x : Red)
      → Ajenos n ss
      → IsRed c x
      → IsRed
          (contenido f (devueltas dns conectar entorno n ss x) c)
          (corre dns conectar entorno n ss x)
  corre-IsRed [] c x d v = v
  corre-IsRed (s ∷ ss) c x (d, ds) v =
      subst (λ b. IsRed b (corre dns conectar entorno n ss (suceder dns conectar entorno n s x)))
        (sym (
          contenido-append f (devuelta s x)
            (devueltas dns conectar entorno n ss (suceder dns conectar entorno n s x)) c))
        (corre-IsRed ss (contenido f (devuelta s x) c) (suceder dns conectar entorno n s x) ds
          (suceder-IsRed s c x d v))

  pub solo_uno :
      (c : Bytes) (x : Red) (i j : ℕ)
      → Exclusivo c x
      → (x.clientes i).fase ≢ libre
      → (x.clientes j).fase ≢ libre
      → i ≡ j
  solo_uno c x i j (inl (h, z)) p q = absurd (p (z i))
  solo_uno c x i j (inr (h, inl z)) p q = absurd (p (z i))
  solo_uno c x i j (inr (h, inr (a, k, z))) p q = sym (holder i p) ∙ holder j q
    where
      holder : (m : ℕ) → (x.clientes m).fase ≢ libre → a ≡ m
      holder m r = elim (Bool-cases (a == m)) [
        | inl e ↦ ground (arith, e)
        | inr e ↦ absurd (r (z m (λ d. ground (arith, e, d))))
      ]
