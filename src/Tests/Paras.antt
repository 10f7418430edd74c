-- ===== src/Tests/Paras.antt =====
-- Parameters and their files.
use sanbao_prot.Base.{◌≤◌, refl, ◌∷◌, Bytes, IsByte, All, replicate, arith}
use sanbao_prot.Field.Laws.{here}
use sanbao_prot.Field.{Rule, get_field}
use sanbao_prot.Para.Adas
use sanbao_prot.Para.WriteAdas.{write_dev_para-adas_bounds}
use sanbao_prot.Para.{write_dev_para}
use sanbao_prot.Prot.{id_adas}
use sanbao_prot.Tests.Sample.{paras}

abbrev speed : Rule
speed = record { field = Adas.warning_speed_val; lo = 0; hi = 60; fallback = 30 }

-- A speed of 200 and all else 255: out of range, and kept.
abbrev inn : Bytes
inn = 200 ∷ replicate 49 255

inn-IsByte : All IsByte inn
inn-IsByte = omega arith

write_dev_para-adas_bounds_example :
    let v = get_field (write_dev_para id_adas inn paras).adas_para speed.field in (0 ≤ v) × (v ≤ 60)
write_dev_para-adas_bounds_example =
    write_dev_para-adas_bounds {r = speed} here inn paras refl inn-IsByte
