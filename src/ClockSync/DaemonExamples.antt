-- ===== src/ClockSync/DaemonExamples.antt =====
-- Runs of tp-cristian/daemon.c.
use so_distribuidos.Prelude.{ℕ, ◌<◌, true, false, [], ◌≡◌, ◌↔◌, refl, pos}
use so_distribuidos.ClockSync.Cristian.{handle_client}
use so_distribuidos.ClockSync.Daemon.{
  ninguno, revisando, Estado, max_clients, primera_libre, aceptar, probar, tras_mensaje, cerrar,
  soltar, soltando, revisar, unir, acepta, prueba, recibe, cierra, suelta, interrumpe, acaba,
  revisa, une, inicial, Alcanza, inicio, luego,
}
use so_distribuidos.ClockSync.Threads.{Tiene, Vive}
use so_distribuidos.ClockSync.Descriptors.{descriptores, sin_fugas}

-- Two clients connect, and the first goes; its slot is taken by a third.
abbrev uno : Estado
uno = aceptar inicial 5 true

abbrev dos : Estado
dos = aceptar uno 6 true

abbrev ido : Estado
ido = soltar (cerrar (tras_mensaje (probar dos 0) 0 false) 0 soltando) 0

abbrev tres : Estado
tres = aceptar ido 5 true

machine : Unit {0}
unfolding primera_libre aceptar handle_client
machine = tt

tres-Alcanza : Alcanza tres
unfolding machine
tres-Alcanza =
    luego
      (luego
        (luego
          (luego
            (luego (luego (luego inicio (acepta 5 true refl refl)) (acepta 6 true refl refl))
              (prueba 0 refl))
            (recibe 0 true [] (pos 9) refl))
          (cierra 0 refl))
        (suelta 0 refl))
      (acepta 5 true refl refl)

descriptores_example :
    ((k : ℕ)
      → tres.abiertos k ≡ true
      → (i : ℕ) × (i < max_clients) × Tiene (tres.clients i).hilo × ((tres.clients i).socket ≡ k))
    × ((i : ℕ) → Tiene (tres.clients i).hilo → tres.abiertos (tres.clients i).socket ≡ true)
    × ((i j : ℕ)
        → Tiene (tres.clients i).hilo
        → Tiene (tres.clients j).hilo
        → (tres.clients i).socket ≡ (tres.clients j).socket
        → i ≡ j)
    × ((i : ℕ) → ((tres.clients i).active ≡ true) ↔ Vive (tres.clients i).hilo)
unfolding machine
descriptores_example = descriptores tres tres-Alcanza refl

-- The daemon is interrupted with one client, whose thread is cancelled.
abbrev fin : Estado
fin =
    let s =
      unir
        (revisar
          (record {
            clients = uno.clients;
            running = false;
            abiertos = uno.abiertos;
            principal = revisando 0;
          })
          0)
        0 in
    revisar
      (revisar (revisar (revisar (revisar (revisar (revisar (revisar (revisar s 1) 2) 3) 4) 5) 6) 7)
        8)
      9

fin-Alcanza : Alcanza fin
unfolding machine
fin-Alcanza =
    luego
      (luego
        (luego
          (luego
            (luego
              (luego
                (luego
                  (luego
                    (luego
                      (luego
                        (luego
                          (luego (luego (luego inicio (acepta 5 true refl refl)) interrumpe)
                            (acaba refl refl))
                          (revisa 0 refl))
                        (une 0 refl))
                      (revisa 1 refl))
                    (revisa 2 refl))
                  (revisa 3 refl))
                (revisa 4 refl))
              (revisa 5 refl))
            (revisa 6 refl))
          (revisa 7 refl))
        (revisa 8 refl))
      (revisa 9 refl)

sin_fugas_example :
    ((k : ℕ) → fin.abiertos k ≡ false)
    × ((i : ℕ) → i < max_clients → (fin.clients i).hilo ≡ ninguno)
unfolding machine
sin_fugas_example = sin_fugas fin fin-Alcanza refl

tres_test : (tres.clients 0).socket ≡ 5
unfolding machine
tres_test = refl
