-- ===== src/Examples/Line.antt =====
-- A socket that moves at most 1000 bytes in a call, and the transfer of packets over it.
use peer_file_torrent.Base.{
  ℕ, zero, suc, ◌<◌, ◌≡◌, refl, sym, ap, ◌∙◌, List, [], ◌∷◌, ◌++◌, min, arith, true, Option, none,
  some, length, take, drop, length-take, take-length, take-append-drop, take-append_le, Ensures,
  ◌==◌,
}
use peer_file_torrent.Packet.{pkt_marshall}
use peer_file_torrent.Handler.{try_send, peer_try_receive, acp_wait_ack}
use peer_file_torrent.Handler.Socket.{
  Sockets, IsSend, accepted, arrived, failed, IsStream, IsSteady, IsPrompt,
}
use peer_file_torrent.Handler.Transfer.{Sending, try_send-Sending}
use peer_file_torrent.Handler.Receive.{Arrival, peer_try_receive-pkt_marshall}
use peer_file_torrent.Handler.Pings.{IsSilent}
use peer_file_torrent.Handler.Replies.{bare, bare-IsPkt, acp_wait_ack-pkt_marshall}

pub record Line : Type 0 where
  pub out : List ℕ
  pub incoming : List ℕ

abbrev pub put : Line → List ℕ → Line × Option ℕ
put s bytes = (record s { out = s.out ++ take 1000 bytes }, some (length (take 1000 bytes)))

abbrev pub line : Sockets
line = record {
  State = Line;
  send = put;
  recv = λ s n.
      (record s { incoming = drop (min n 1000) s.incoming }, some (take (min n 1000) s.incoming));
  set_timeout = λ s. (s, true);
}

-- A socket on which nothing is received.
abbrev pub silent_line : Sockets
silent_line = record {
  State = Line;
  send = put;
  recv = λ s n. (s, none);
  set_timeout = λ s. (s, true);
}

pub silent_line-IsSilent : IsSilent silent_line
silent_line-IsSilent = record { silent = λ s n. refl }

take_again : (k : ℕ) (xs : List ℕ) → take (length (take k xs)) xs ≡ take k xs
take_again k xs =
    ap (take (length (take k xs))) (sym (take-append-drop k xs))
    ∙ take-append_le (length (take k xs)) (take k xs) (drop k xs) (omega arith)
    ∙ take-length (take k xs)

pub put-IsSend :
    (s : Line) (bytes : List ℕ)
    → 0 < length bytes
    → IsSend (λ (l : Line). l.out) s bytes (put s bytes)
put-IsSend s bytes pos =
    accepted (length (take 1000 bytes)) (omega (arith, length-take 1000 bytes))
      (omega (arith, length-take 1000 bytes)) (ap (λ x. s.out ++ x) (sym (take_again 1000 bytes)))

abbrev pub line_stream : IsStream line
line_stream = record {
  sent = λ s. s.out;
  pending = λ s. s.incoming;
  send = put-IsSend;
  send_pending = λ s bytes. refl;
  recv = λ s n pos.
      arrived (take (min n 1000) s.incoming) (omega (arith, length-take (min n 1000) s.incoming))
        (sym (take-append-drop (min n 1000) s.incoming));
  recv_sent = λ s n. refl;
  timeout_sent = λ s. refl;
  timeout_pending = λ s. refl;
}

pub line-IsSteady : IsSteady line line_stream
line-IsSteady = record { takes = λ s bytes. (length (take 1000 bytes), refl) }

abbrev pub silent_stream : IsStream silent_line
silent_stream = record {
  sent = λ s. s.out;
  pending = λ s. s.incoming;
  send = put-IsSend;
  send_pending = λ s bytes. refl;
  recv = λ s n pos. failed refl;
  recv_sent = λ s n. refl;
  timeout_sent = λ s. refl;
  timeout_pending = λ s. refl;
}

pub silent_line-IsSteady : IsSteady silent_line silent_stream
silent_line-IsSteady = record { takes = λ s bytes. (length (take 1000 bytes), refl) }

first_of :
    (n : ℕ) (xs : List ℕ) → 0 < n → 0 < length xs → (b : ℕ) × (bs : List ℕ) × (take n xs ≡ b ∷ bs)
first_of zero xs pos more = absurd (omega arith)
first_of (suc n) [] pos more = absurd (omega arith)
first_of (suc n) (x ∷ xs) pos more = (x, take n xs, refl)

line-IsPrompt : IsPrompt line line_stream
line-IsPrompt = record {
  timeout = λ s. refl;
  serves = λ s n pos more.
      let (b, bs, e) = first_of (min n 1000) s.incoming (omega arith) more in (b, bs, ap some e);
}

abbrev pub idle : Line
idle = record { out = []; incoming = [] }

abbrev acknowledging : Line
acknowledging = record { out = []; incoming = pkt_marshall (bare 12) ++ (1 ∷ []) }

try_send-Sending_example :
    Ensures
      (Sending line line_stream (pkt_marshall (bare 255)) idle)
      (try_send line idle (bare 255))
try_send-Sending_example =
    try_send-Sending line line_stream idle (bare 255) (bare-IsPkt 255 (omega arith))

peer_try_receive-pkt_marshall_example :
    Ensures
      (λ (t, r). Arrival line line_stream (bare 12) (1 ∷ []) acknowledging t r)
      (peer_try_receive line acknowledging)
peer_try_receive-pkt_marshall_example =
    peer_try_receive-pkt_marshall line line_stream acknowledging (bare 12) (1 ∷ [])
      (bare-IsPkt 12 (omega arith)) refl

acp_wait_ack-pkt_marshall_example :
    Ensures
      (λ (t, acknowledged).
        (acknowledged ≡ (12 == 12)) × (t.out ≡ pkt_marshall (bare 2)) × (t.incoming ≡ 1 ∷ []))
      (acp_wait_ack line acknowledging)
acp_wait_ack-pkt_marshall_example =
    acp_wait_ack-pkt_marshall line line_stream line-IsSteady acknowledging (bare 12) (1 ∷ [])
      line-IsPrompt (bare-IsPkt 12 (omega arith)) refl
