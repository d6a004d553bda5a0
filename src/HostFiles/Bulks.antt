-- ===== src/HostFiles/Bulks.antt =====
-- cms/svctblk.c: the client of the service that tests streams.
use nicof.Prelude.{ℕ, ◌+◌, ◌*◌, ◌^◌, ◌%◌, true, false, Option, none, some}
use nicof.Prelude.Int.{ℤ}
use nicof.Stream.{Stream}
use nicof.HostFiles.{Services, Remote, plain_ask, stream_call, new_bulk_source, new_bulk_sink}

-- The stream of a call's result.
abbrev pub stream_of {ℓ} :
    {S : Type ℓ} → Option (Remote S × ℤ × Option Stream) → Option (Remote S × Option Stream)
stream_of none = none
stream_of (some (r, rc, stream)) = some (r, stream)

module _ {ℓ} {S : Type ℓ} (services : Services S) (svc_id : ℤ) (block : Stream) (garbage : ℕ) where
  -- tstb_002
  unfoldable pub testbulks_get_text_source_stream : ℕ → Remote S → Option (Remote S × Option Stream)
  testbulks_get_text_source_stream lines_to_eof r = stream_of (
      stream_call services (plain_ask svc_id 1 lines_to_eof) new_bulk_source true true block garbage
        r)

  -- tstb_003; `lrecl` is a byte.
  unfoldable pub testbulks_get_bin_source_stream :
      (lrecl recs : ℕ) → Remote S → Option (Remote S × Option Stream)
  testbulks_get_bin_source_stream lrecl recs r = stream_of (
      stream_call services (plain_ask svc_id 2 ((recs % 2 ^ 24) * 256 + lrecl)) new_bulk_source true
        false block garbage r)

  -- tstb_004
  unfoldable pub testbulks_get_text_sink_stream : ℕ → Remote S → Option (Remote S × Option Stream)
  testbulks_get_text_sink_stream lines_to_full r = stream_of (
      stream_call services (plain_ask svc_id 3 lines_to_full) new_bulk_sink false true block garbage
        r)

  -- tstb_005
  unfoldable pub testbulks_get_bin_sink_stream :
      (lrecl recs : ℕ) → Remote S → Option (Remote S × Option Stream)
  testbulks_get_bin_sink_stream lrecl recs r = stream_of (
      stream_call services (plain_ask svc_id 4 ((recs * 256) % 2 ^ 32 + lrecl % 256)) new_bulk_sink
        false false block garbage r)
