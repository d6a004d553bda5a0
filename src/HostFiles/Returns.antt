-- ===== src/HostFiles/Returns.antt =====
-- cms/svcnhfs.c: the calls of the host file service over the VMCF client.
use nicof.Prelude.{
  ℕ, ◌+◌, ◌^◌, ◌<◌, ◌≡◌, refl, ap, Bool, true, false, Option, none, some, List, ◌∷◌, Bool-cases,
  inl, inr, if◌then◌else◌,
}
use nicof.Prelude.Int.{ℤ, to_int}
use nicof.Client.{Request, Client, mid_free}
use nicof.Client.Wait.{Arrival}
use nicof.Client.Validity.{IsValid}
use nicof.Client.Validity.Calls.{IsNewBlock}
use nicof.Client.Delivery.{IsAnswer}
use nicof.Client.Delivery.Exchange.{IsPositive}
use nicof.Client.Delivery.Taking.{IsIn}
use nicof.Client.Tables.{entry, a2e_tab}
use nicof.Base.{Ask, Outcome, invoke}
use nicof.Base.Resolve.{Resolved, resolve}
use nicof.Base.Invoke.{handle_for, invoke-returns}
use nicof.Stream.{Stream, open_stream, state_ok, nerr_noerror, stream_buffer_len}
use nicof.HostFiles.{
  Services, ServiceClient, text_ask, file_text, same_int, new_bulk_source, bulk_stream, stream_call,
  client_stream, hostfs_getfile,
}
use nicof.Client.Tables.{e2a_tab}

-- What the calls reach: the client, and what is to arrive.
abbrev pub World : Type 0
World = Client × List Arrival

abbrev pub with_resolved : Option (Client × Resolved × List Arrival) → Option (World × Resolved)
with_resolved none = none
with_resolved (some (c, res, rest)) = some ((c, rest), res)

abbrev pub with_outcome : Option (Client × Outcome × List Arrival) → Option (World × Outcome)
with_outcome none = none
with_outcome (some (c, out, rest)) = some ((c, rest), out)

-- The base services over the VMCF client: `block_of` gives the memory of a new request, and CP
-- accepts each SEND/RECV.
unfoldable pub base_services : (Client → Request) → ℕ → ℕ × ℕ → Services World
base_services block_of to_vm garbage = record {
  resolve = λ name (c, arrivals).
      with_resolved (resolve (entry e2a_tab) name (block_of c) to_vm 0 garbage arrivals c);
  invoke = λ ask wants_data (c, arrivals).
      with_outcome
        (invoke ask (block_of c) to_vm 0 wants_data (some (entry a2e_tab)) garbage arrivals c);
}

-- The stream that a response opens, at its start: its number is the response's second word.
abbrev pub stream_for : ℕ → ℕ → (source text : Bool) → Stream → ℤ → Option Stream
stream_for w1 w2 source text block new_bulk =
    if same_int (to_int w1) new_bulk
    then some (record block {
      stream_id = w2;
      is_source = source;
      is_text = text;
      stream_state = state_ok;
      nerr = nerr_noerror;
      commrc = ℤ.pos 0;
      buf_len = if source then 0 else stream_buffer_len;
      buf_pos = 0;
    })
    else none

client_stream-answered :
    {S : Type 0} (services : Services S) (ask : Ask) (new_bulk : ℤ) (source text : Bool)
    (block : Stream) (garbage mode : ℕ) (k : ServiceClient) (w v : S) (w1 w2 : ℕ)
    → services.invoke ask false w
      ≡ some (v, record { rc = to_int w1; ctl_word = some w2; bytes = none })
    → client_stream services ask new_bulk source text block garbage k
        (record { world = w; line_end_mode = some mode })
      ≡ some (
        record { world = v; line_end_mode = some mode },
        record k { last_rc = to_int w1 },
        stream_for w1 w2 source text block new_bulk,
      )
unfolding client_stream stream_call bulk_stream open_stream
client_stream-answered services ask new_bulk source text block garbage mode k w v w1 w2 e =
    rw (e, client_stream, stream_call)
      (elim (Bool-cases (same_int (to_int w1) new_bulk)) [
        | inl t ↦ rw (t, client_stream, stream_call) refl
        | inr t ↦ rw (t, client_stream, stream_call) refl
      ])

-- In a valid client without a filter and with no posted event, for a new block of memory, fewer
-- than 2 ^ 32 messages sent and a line end mode that is known, a request for a file of the host
-- file service, whose SEND/RECV CP accepts and whose positive response is the next arrival,
-- returns: the response's first word is the return code that is kept; where it says
-- NEW_BULK_SOURCE, the result is a new source stream with the second word as its number, and else
-- NULL; the call's request is free.
pub hostfs_getfile-returns :
    (fn ft : List ℕ) (elems : List (List ℕ)) (text : Bool) (stream_block : Stream) (g mode : ℕ)
    (k : ServiceClient) (block_of : Client → Request) (to_vm : ℕ) (garbage : ℕ × ℕ) (a : Arrival)
    (later : List Arrival) (c : Client)
    → IsValid c
    → IsNewBlock (block_of c) c
    → c.response_filter ≡ 0
    → c.posted ≡ false
    → c.last_msg_id + 1 < 2 ^ 32
    → IsAnswer (c.last_msg_id + 1) a
    → IsPositive a
    → (d : Client) × (hostfs_getfile
          (base_services block_of to_vm garbage)
          fn
          ft
          elems
          text
          stream_block
          g
          k
          (record { world = (c, a ∷ later); line_end_mode = some mode })
        ≡ some (
          record { world = (d, later); line_end_mode = some mode },
          record k { last_rc = to_int a.header.w1 },
          stream_for a.header.w1 a.header.w2 true text stream_block new_bulk_source,
        ))
      × IsIn mid_free (handle_for (text_ask k.svc_id 2 0 (file_text fn ft elems)) (block_of c) c) d
unfolding base_services
hostfs_getfile-returns fn ft elems text stream_block g mode k block_of to_vm garbage a later c v new
      o f n ans good =
    let ask = text_ask k.svc_id 2 0 (file_text fn ft elems) in
    let (d, did, free) =
      invoke-returns ask (block_of c) to_vm false (some (entry a2e_tab)) garbage a later c v new o f
        n ans good in
    (
      d,
      client_stream-answered (base_services block_of to_vm garbage) ask new_bulk_source true text
          stream_block g mode k (c, a ∷ later) (d, later) a.header.w1 a.header.w2
          (ap with_outcome did),
      free,
    )
