-- ===== src/Examples/Otlps.antt =====
-- Concrete requests, responses and batches of the OTLP exporter.
use zapwire.Common.{
  ℕ, zero, suc, ◌+◌, ◌%◌, ◌^◌, ◌≤◌, ◌<◌, ◌≡◌, ◌≢◌, refl, Bool, true, false, none, some, List, [],
  ◌∷◌, ◌++◌, Bytes, length, arith, ok, err, All,
}
use zapwire.Common.Int.{pos, pos_part}
use zapwire.Config.{drop_oldest}
use zapwire.Otlp.Proto.Varint.{uvarint, append_uvarint, uvarint_len, len64}
use zapwire.Otlp.Proto.Varint.RoundTrip.{uvarint-append_uvarint}
use zapwire.Otlp.Proto.Read.{
  stuck, find_field, find_varint, for_each_len_field, decode_partial_success,
}
use zapwire.Otlp.Proto.Scan.{scans_total}
use zapwire.Otlp.Proto.Append.{append_tagged_bytes, append_tagged_uvarint}
use zapwire.Otlp.Proto.Fields.{Part, varint_part, fixed64_part, bytes_part, append_parts}
use zapwire.Otlp.Proto.Response.{verdict, report_parts, decode_partial_success-append_parts}
use zapwire.Otlp.Envelope.{
  Envelope, size_for, tagged_len, assemble, record_cost, scope_part_len, resource_logs_len,
}
use zapwire.Otlp.Envelope.Size.{length-assemble}
use zapwire.Otlp.Envelope.Parts.{read_request, read_request-assemble}
use zapwire.Otlp.GrpcStatus.{percent_decode}
use zapwire.Otlp.GrpcStatus.Laws.{percent_encode, percent_decode-percent_encode}
use zapwire.Otlp.Export.{
  ExportError, error_of, Account, Prepared, RetryConfig, Trip, Turn, export, accepted,
  resolve_accept,
}
use zapwire.Otlp.Export.Retry.{Ends, export-Ends}
use zapwire.Otlp.Export.Accept.{response, told, accepted-resolve_accept}
use zapwire.Otlp.Batch.{Intake, write, cancelled, sync, tick, receive, on_event, run}
use zapwire.Otlp.Batch.Cut.{Shipped, all_received, run_ships}
use zapwire.Otlp.Batch.Admission.{IsIntake, Written, write_lem}

abbrev env : Envelope
env = record { resource_blob = 10 ∷ 11 ∷ []; scope_blob = 12 ∷ [] }

abbrev log : Bytes
log = 1 ∷ 2 ∷ []

abbrev records : List Bytes
records = (1 ∷ 2 ∷ []) ∷ (3 ∷ []) ∷ []

uvarint-append_uvarint_example :
    uvarint (append_uvarint [] 300 ++ (9 ∷ [])) ≡ some (300, length (append_uvarint [] 300))
uvarint-append_uvarint_example = uvarint-append_uvarint 300 (9 ∷ []) (omega arith)

abbrev count_payloads : ℕ → Bytes → ℕ × Bool
count_payloads n b = (n + 1, true)

scans_total_example :
    (find_field (8 ∷ 200 ∷ []) 1 ≢ err stuck)
    × (find_varint (8 ∷ 200 ∷ []) 1 ≢ err stuck)
    × ((for_each_len_field 1 count_payloads (8 ∷ 200 ∷ []) 0).1 ≢ some stuck)
scans_total_example = scans_total (8 ∷ 200 ∷ []) 1 count_payloads 0

abbrev parts : List Part
parts =
    varint_part 2 300 ∷ bytes_part 1 (7 ∷ []) ∷ fixed64_part 3 5 ∷ bytes_part 1 (8 ∷ 9 ∷ []) ∷ []

decode_partial_success-append_parts_example :
    decode_partial_success (append_parts [] (varint_part 2 1 ∷ [])) ≡ ok (verdict none)
decode_partial_success-append_parts_example =
    decode_partial_success-append_parts (varint_part 2 1 ∷ []) none ((omega arith, omega arith), tt)
      tt refl

length-assemble_example :
    length (assemble env log records) ≡ length log + size_for env (tagged_len records)
length-assemble_example = length-assemble env log records

size_for-records : size_for env (tagged_len records) ≡ 18
unfolding size_for tagged_len record_cost scope_part_len resource_logs_len uvarint_len len64
size_for-records = refl

read_request-assemble_example : read_request (assemble env [] records) ≡ ok records
read_request-assemble_example = read_request-assemble env records (omega (arith, size_for-records))

percent_decode-percent_encode_example :
    percent_decode (percent_encode (37 ∷ 65 ∷ 200 ∷ [])) ≡ 37 ∷ 65 ∷ 200 ∷ []
percent_decode-percent_encode_example =
    percent_decode-percent_encode (37 ∷ 65 ∷ 200 ∷ [])
      (omega arith, (omega arith, (omega arith, tt)))

-- The server is busy once, and then rejects one record.
abbrev busy : ExportError
busy = record (error_of []) { status_code = 503; retryable = true }

abbrev turn : Turn
turn = record {
  took = 10;
  answer = err busy;
  cancelled = false;
  jitter = 3;
  timer = true;
  late = 1;
}

abbrev turns : ℕ → Turn
turns zero = turn
turns (suc n) = record turn {
  answer = ok (some (record { rejected = pos 1; event = some (error_of []) }));
}

abbrev trip : Trip
trip = record { now = 1000; turns = turns }

abbrev binary : Bytes → Prepared
binary b = record { body = b; compressed = false; warn = none; fail = none }

abbrev retry : RetryConfig
retry = record { initial = 20; max_interval = 50; max_elapsed = 400 }

abbrev nothing : Account
nothing = record { dropped = 0; events = [] }

export-Ends_example :
    Ends
      (length (log ∷ []))
      (some 1200)
      trip
      (binary (assemble env [] (log ∷ [])))
      nothing
      (export binary env retry true (some 1200) trip (log ∷ []) nothing)
export-Ends_example =
    export-Ends binary env retry true (some 1200) trip log [] nothing (omega arith, omega arith)
      (omega arith, omega arith)

fits : All (λ r. size_for env (record_cost (length r)) ≤ 17) records
unfolding size_for record_cost scope_part_len resource_logs_len uvarint_len len64
fits = (omega arith, (omega arith, tt))

abbrev intake : Intake
intake = record { closed = false; queue = records; dropped = 0; notices = 0 }

intake-IsIntake : IsIntake env 17 2 intake
intake-IsIntake = record { fit = fits; bounded = omega arith }

report_small : length (append_parts [] (report_parts (pos 2) log)) < 2 ^ 64
unfolding append_tagged_bytes append_tagged_uvarint append_uvarint
report_small = omega arith

accepted-resolve_accept_example :
    let s' = accepted (resolve_accept (λ e. []) (response (pos 2) log) (error_of [])) nothing in
    (s'.dropped ≡ (0 + pos_part (pos 2)) % 2 ^ 64)
    × (s'.events ≡ [] ++ told (pos 2) log (error_of []))
accepted-resolve_accept_example =
    accepted-resolve_accept (λ e. []) (pos 2) log (error_of []) nothing (omega arith) (omega arith)
      report_small (omega arith)

write_lem_example : Written env 17 2 intake (write env 17 drop_oldest 2 log intake)
write_lem_example = write_lem env 17 drop_oldest 2 log intake intake-IsIntake

run_ships_example :
    Shipped binary env retry
      (λ _. trip)
      17
      2
      (omega arith, omega arith)
      (omega arith, omega arith)
      (all_received (receive log ∷ tick ∷ sync 5 records ∷ []) ++ (log ∷ []))
      (on_event binary env retry
        (λ _. trip)
        17
        2
        0
        (cancelled 9 (log ∷ []))
        (run binary env retry
          (λ _. trip)
          17
          2
          0
          (receive log ∷ tick ∷ sync 5 records ∷ [])
          (record { batch = []; tagged = 0; shipped = []; account = nothing; stopped = false })))
run_ships_example =
    run_ships binary env retry (λ _. trip) 17 2 (omega arith, omega arith)
      (omega arith, omega arith) 0 (receive log ∷ tick ∷ sync 5 records ∷ []) 9 (log ∷ []) nothing
      (omega arith) (((fits.0, tt), (tt, (fits, tt)))) (fits.0, tt)
