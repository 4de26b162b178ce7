-- ===== src/Otlp/Export/Accept.antt =====
-- The account of a partial success, from the bytes of the response on (otlp/transport.go).
use zapwire.Common.{
  zero, suc, ◌+◌, ◌%◌, ◌^◌, ◌<◌, ◌≡◌, refl, true, List, [], ◌∷◌, ◌++◌, Bytes, append-nil, sym,
  length, ok, arith,
}
use zapwire.Common.Int.{ℤ, pos, negsuc, pos_part}
use zapwire.Otlp.Proto.Varint.{IsU64}
use zapwire.Otlp.Proto.Read.{ReadError}
use zapwire.Otlp.Proto.Fields.{bytes_part, append_parts}
use zapwire.Otlp.Proto.Response.{IsI64, report_parts, decode_partial_success_report}
use zapwire.Otlp.Export.{
  ExportError, Account, classify_accept, resolve_accept, accepted, drop_records,
}

-- The bytes of a server's response that reports `n` rejected records with a message.
abbrev pub response : ℤ → Bytes → Bytes
response n msg = append_parts [] (bytes_part 1 (append_parts [] (report_parts n msg)) ∷ [])

-- What the error handler is told.
abbrev pub told : ℤ → Bytes → ExportError → List ExportError
told (pos (suc n)) msg base = record base { rejected = pos (suc n); message = msg } ∷ []
told (pos zero) [] base = []
told (pos zero) (c ∷ msg) base = record base { warning = true; message = c ∷ msg } ∷ []
told (negsuc n) [] base = []
told (negsuc n) (c ∷ msg) base = record base { warning = true; message = c ∷ msg } ∷ []

accepted-classify_accept :
    (n : ℤ) (msg : Bytes) (base : ExportError) (s : Account)
    → s.dropped < 2 ^ 64
    → let s' = accepted (classify_accept (ok (n, msg)) base) s in
      (s'.dropped ≡ (s.dropped + pos_part n) % 2 ^ 64) × (s'.events ≡ s.events ++ told n msg base)
unfolding accepted classify_accept drop_records
accepted-classify_accept (pos (suc n)) msg base s h = (refl, refl)
accepted-classify_accept (pos zero) [] base s h = (omega arith, sym (append-nil s.events))
accepted-classify_accept (pos zero) (c ∷ msg) base s h = (omega arith, refl)
accepted-classify_accept (negsuc n) [] base s h = (omega arith, sym (append-nil s.events))
accepted-classify_accept (negsuc n) (c ∷ msg) base s h = (omega arith, refl)

-- A response that reports `n` rejected records with a message, for any int64 `n` and any message
-- whose lengths are uint64, adds `n` to a uint64 count of dropped records if it is positive and
-- nothing otherwise, and the error handler is told at most once: of the rejection, or of a warning
-- where there is a message only.
pub accepted-resolve_accept :
    (text : ReadError → Bytes) (n : ℤ) (msg : Bytes) (base : ExportError) (s : Account)
    → IsI64 n
    → IsU64 (length msg)
    → IsU64 (length (append_parts [] (report_parts n msg)))
    → s.dropped < 2 ^ 64
    → let s' = accepted (resolve_accept text (response n msg) base) s in
      (s'.dropped ≡ (s.dropped + pos_part n) % 2 ^ 64) × (s'.events ≡ s.events ++ told n msg base)
unfolding resolve_accept
accepted-resolve_accept text n msg base s hn hm hr h =
    rw (decode_partial_success_report n msg hn hm hr) (accepted-classify_accept n msg base s h)
