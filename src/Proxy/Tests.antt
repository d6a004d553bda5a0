-- ===== src/Proxy/Tests.antt =====
-- cms/ioproxy.c: runs of the request buffers and of the console protocol at concrete inputs.
use nicof.Prelude.{◌≡◌, refl, inl, true, false, some, [], ◌∷◌, ◌++◌, replicate, arith}
use nicof.Proxy.{init_request_buffers, blank}
use nicof.Proxy.Link.{Link, s_receiving}
use nicof.Proxy.Receive.{decode, senr, device, handle, end_receive_packet, aid_f4}
use nicof.Proxy.Sound.{Works, Change}
use nicof.Proxy.Sound.Interrupts
use nicof.Proxy.Sound.Interrupts.{start, start-Works, handle-Works, IsHonestRun, run-Works}
use nicof.Proxy.Encoding.{encode, encode_from, decode-encode}
use nicof.Proxy.Packets.{Response, IsResponse, sent, replied, end_receive_packet-response}
use nicof.Proxy.Flow.{
  receives, transmits, answers, run, View, view, accept, transmit, idle, answer, Moves, done, more,
  Tracks, numbers, init-Tracks, run-Tracks,
}

abbrev initial : View
initial = view (numbers 1 127 ++ 0 ∷ []) [] []

history :
    Moves initial
      (receives blank ∷ transmits ∷ answers 1 ∷ transmits ∷ [])
      (view (numbers 2 126 ++ 0 ∷ 1 ∷ []) [] [])
unfolding numbers
history = more _ _ _ (receives blank) _ (accept blank 1 2 (numbers 3 125 ++ 0 ∷ []) [] []) (
    more _ _ _ transmits _ (transmit 1 (numbers 2 126 ++ 0 ∷ []) [] []) (
      more _ _ _ (answers 1) _ (answer 1 (numbers 2 126 ++ 0 ∷ []) [] [] [])
        (more _ _ _ transmits _ (idle (numbers 2 126 ++ 0 ∷ 1 ∷ []) []) (done _))))

run-Tracks_example :
    Tracks
      (view (numbers 2 126 ++ 0 ∷ 1 ∷ []) [] [])
      (run init_request_buffers (receives blank ∷ transmits ∷ answers 1 ∷ transmits ∷ []))
run-Tracks_example =
    run-Tracks initial (view (numbers 2 126 ++ 0 ∷ 1 ∷ []) [] []) init_request_buffers
      (receives blank ∷ transmits ∷ answers 1 ∷ transmits ∷ []) init-Tracks history

handle-Works_example :
    (m : Link) × (w : View) × (handle (senr blank) start ≡ some m) × Change initial w × Works w m
handle-Works_example = handle-Works initial start (senr blank) start-Works tt

two_interrupts : IsHonestRun initial start (senr blank ∷ device true true 2560 [] [] ∷ [])
two_interrupts = (tt, λ m w e c k. (λ h. ground arith, λ m2 w2 e2 c2 k2. tt))

run-Works_example :
    (m : Link) × (w : View) × (Interrupts.run (senr blank ∷ device true true 2560 [] [] ∷ []) start
      ≡ some m)
    × Works w m
run-Works_example = run-Works (senr blank ∷ device true true 2560 [] [] ∷ []) two_interrupts

decode-encode_example :
    decode 1 (encode (200 ∷ 7 ∷ []) ++ 9 ∷ []) ≡ 200 ∷ 7 ∷ 0 ∷ 0 ∷ 0 ∷ 0 ∷ 0 ∷ []
decode-encode_example = decode-encode (200 ∷ 7 ∷ []) (9 ∷ []) (omega arith, (omega arith, tt))

abbrev response : Response
response = record { slot = 5; user_word1 = 3; user_word2 = 70000; bytes = 200 ∷ 7 ∷ [] }

response-IsResponse : IsResponse response
response-IsResponse = record {
  slot = omega arith;
  user_word1 = omega arith;
  user_word2 = omega arith;
  short = omega arith;
  bytes = (omega arith, (omega arith, tt));
}

abbrev receiving : Link
receiving = record start { pstate = s_receiving }

end_receive_packet-response_example :
    end_receive_packet
      (aid_f4 ∷ (replicate 10 0x40 ++ (sent false response ++ [])))
      2525
      []
      receiving
    ≡ some (replied true blank response receiving)
unfolding start init_request_buffers encode encode_from
end_receive_packet-response_example =
    end_receive_packet-response true receiving blank response (replicate 10 0x40) [] [] 2525
      response-IsResponse refl (inl refl) refl refl
