-- ===== src/Migration/Examples.antt =====
-- A program that goes to the server and back.
use so_distribuidos.Prelude.{
  true, none, some, List, [], ◌∷◌, ◌≡◌, ◌≢◌, refl, arith, ap, Bytes, codes, length, take,
}
use so_distribuidos.Transfer.Files.{file, FileSystem, put}
use so_distribuidos.Migration.Service.{codigo_c, Maquina, recibe_envia_comandos, cliente}
use so_distribuidos.Migration.Delivery.{programa_de, migracion}

-- A compiler of programs that print their source. It leaves codigo.out.
abbrev eco : Maquina Bytes
eco = record {
  can_open = λ p. true;
  write_ok = true;
  gcc = λ c fs. (some c, put (codes "codigo.out") (file c) fs);
  corre = λ p fs. (some p, fs);
}

abbrev fuente : Bytes
fuente = codes "main(){}"

abbrev vacias : FileSystem
vacias q = none

migracion_example :
    (u : FileSystem) × (t : List Bytes) × (recibe_envia_comandos eco (take 1023 fuente ∷ []) vacias
      ≡ some ((programa_de eco (eco.gcc (take 1023 fuente) u)).1, t))
    × (cliente true true (some (file fuente)) t
        ≡ some (record {
          status = 0;
          enviado = some (take 1023 fuente);
          recibido = (programa_de eco (eco.gcc (take 1023 fuente) u)).0;
        }))
    × (u codigo_c ≡ some (file (take 1023 fuente)))
    × ((q : Bytes) → codigo_c ≢ q → u q ≡ vacias q)
migracion_example =
    migracion eco (λ s. s) (λ s. s) fuente vacias (λ b n h. refl) (λ s. refl)
      (λ e. absurd (omega (arith, ap length e))) refl refl refl
