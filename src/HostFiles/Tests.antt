-- ===== src/HostFiles/Tests.antt =====
-- cms/svcnhfs.c: requests for files at concrete inputs.
use nicof.Prelude.{ℕ, ◌≡◌, refl, false, true, some, List, [], ◌∷◌, arith, replicate, map, take}
use nicof.Prelude.Int.{ℤ, to_int}
use nicof.Client.{Request, Client, mid_free}
use nicof.Client.Wait.{Arrival}
use nicof.Client.Validity.{IsValid}
use nicof.Client.Delivery.{IsAnswer}
use nicof.Client.Delivery.Exchange.{IsPositive}
use nicof.Client.Delivery.Taking.{IsIn}
use nicof.Base.Invoke.{handle_for}
use nicof.Stream.{Stream}
use nicof.HostFiles.{
  ServiceClient, text_ask, file_text, encode_path, nhfs_max_path_depth, new_bulk_source,
  hostfs_getfile,
}
use nicof.HostFiles.Paths.{words, encode_path-words}
use nicof.HostFiles.Returns.{base_services, stream_for, hostfs_getfile-returns}

abbrev name_a : List ℕ
name_a = 0xc1 ∷ 0xc2 ∷ []

encode_path-words_example :
    words (encode_path (name_a ∷ name_a ∷ []))
    ≡ map (take 8) (take nhfs_max_path_depth (name_a ∷ name_a ∷ []))
encode_path-words_example = encode_path-words name_a (name_a ∷ []) (
  ((λ e. omega arith), ((λ e. omega arith), tt)),
  (((λ e. omega arith), ((λ e. omega arith), tt)), tt),
)

abbrev block : Request
block = record {
  me = 100;
  msg_id = 0;
  recv_rc = ℤ.pos 0;
  filter_tag = 0;
  user_word1 = 0;
  user_word2 = 0;
  data_len = 0;
  buf = replicate 2048 0;
}

abbrev empty : Client
empty = record {
  initialized = true;
  requests = [];
  last_msg_id = 10;
  response_filter = 0;
  posted = false;
}

empty-IsValid : IsValid empty
empty-IsValid = record { slots = tt; apart = tt; counter = omega arith }

abbrev response : Arrival
response = record {
  header = record {
    intr_code = 0x4001;
    func = 3;
    mid = 11;
    rejected = false;
    answered = true;
    lenb = 2048;
    w1 = 4294967264;
    w2 = 80;
  };
  stored = [];
}

response-IsAnswer : IsAnswer 11 response
response-IsAnswer = record { code = refl; func = refl; mid = refl }

response-IsPositive : IsPositive response
response-IsPositive = record { accepted = refl; final = refl; counted = refl }

abbrev service : ServiceClient
service = record { svc_id = ℤ.pos 5; is_initialized = true; last_rc = ℤ.pos 0 }

abbrev stream_block : Stream
stream_block = record {
  stream_id = 0;
  is_text = false;
  is_source = false;
  last_line_was_buffer_end = false;
  stream_state = 0;
  nerr = 0;
  commrc = ℤ.pos 0;
  buf_len = 0;
  buf_pos = 0;
  buffer = replicate 2048 0;
}

hostfs_getfile-returns_example :
    (d : Client) × (hostfs_getfile
        (base_services (λ c. block) 9 (0, 0))
        name_a
        name_a
        []
        true
        stream_block
        0
        service
        (record { world = (empty, response ∷ []); line_end_mode = some 1 })
      ≡ some (
        record { world = (d, []); line_end_mode = some 1 },
        record service { last_rc = to_int 4294967264 },
        stream_for 4294967264 80 true true stream_block new_bulk_source,
      ))
    × IsIn mid_free (handle_for (text_ask (ℤ.pos 5) 2 0 (file_text name_a name_a [])) block empty) d
hostfs_getfile-returns_example =
    hostfs_getfile-returns name_a name_a [] true stream_block 0 1 service (λ c. block) 9 (0, 0)
      response [] empty empty-IsValid (refl, tt) refl refl (omega arith) response-IsAnswer
      response-IsPositive
