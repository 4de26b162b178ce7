-- ===== src/Examples/Lines.antt =====
-- Concrete records of ndjson/ and options of otlp/.
use zapwire.Common.{◌≡◌, List, [], ◌∷◌, map, ◌↔◌, arith, min}
use zapwire.Common.Int.{pos, negsuc, pos_part, ◌≤ℤ◌, ◌+ℤ◌}
use zapwire.Syslog.Framer.{read_lines}
use zapwire.Ndjson.{Record, record_bytes, encode, frame, read_lines-frame_encode}
use zapwire.Otlp.Options.{
  Build, normalize, default_options, apply_options, default_severity_mapper, clamp_severity,
}
use zapwire.Otlp.Options.Normalize.{IsUsable, apply_options-IsUsable, default_severity_mapper_lem}

abbrev rows : List Record
rows = (b'{' ∷ b'}' ∷ [], 2) ∷ ([], 1) ∷ (b'x' ∷ [], 0) ∷ []

read_lines-frame_encode_example :
    read_lines [] (frame [] (map (λ r. encode [] (record_bytes r)) rows))
    ≡ (map (λ r. r.0) rows, [])
read_lines-frame_encode_example =
    read_lines-frame_encode rows ((omega arith, (omega arith, tt)), (tt, ((omega arith, tt), tt)))

abbrev build : Build
build = record { program = []; module_version = [] }

apply_options-IsUsable_example :
    IsUsable (apply_options build ((λ o. record o { batch_size = negsuc 4 }) ∷ []))
    × ((normalize build (default_options build) ≡ default_options build)
        ↔ IsUsable (default_options build))
apply_options-IsUsable_example =
    apply_options-IsUsable build ((λ o. record o { batch_size = negsuc 4 }) ∷ [])
      (default_options build)

default_severity_mapper_lem_example :
    (default_severity_mapper (negsuc 0) ≡ pos 5)
    × (default_severity_mapper (pos 5) ≡ pos 23)
    × (default_severity_mapper (pos 1) +ℤ pos 1 ≤ℤ default_severity_mapper (pos 4))
    × (default_severity_mapper (pos 9) ≡ pos 0)
    × (clamp_severity (pos 99) ≡ pos (min (pos_part (pos 99)) 24))
    × (clamp_severity (default_severity_mapper (pos 1)) ≡ default_severity_mapper (pos 1))
default_severity_mapper_lem_example =
    default_severity_mapper_lem (pos 1) (pos 4) (pos 9) (pos 99) (omega arith, omega arith)
      (omega arith, omega arith) (unfold ◌+ℤ◌ in omega arith) (λ (_, h). omega arith)
