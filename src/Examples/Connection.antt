-- ===== src/Examples/Connection.antt =====
-- src/downstream/adapters.go with the packets of a small message.
use air_gap.Common.{Bytes, ◌≡◌, refl, List, [], ◌∷◌, ◌++◌, none, length, arith, ◌+◌}
use air_gap.Common.Text.{codes, has_prefix}
use air_gap.Protocol.Format.Outcomes.{sent, format_message-sent}
use air_gap.Downstream.Tcp.{
  handle_connection, push_messages, stream_of, read_message, read_full, read_error, ended,
}
use air_gap.Downstream.Tcp.Frames.{sent_arrives}
use air_gap.Examples.Packets.{toy_hex, toy_hex-IsDigest, five}

abbrev id : Bytes
id = codes "t_3_5"

abbrev on_wire : List Bytes
on_wire = sent toy_hex 6 20 id five

-- The packets, and half a header behind them.
sent_arrives_example :
    handle_connection none (length on_wire + 4) [] (stream_of on_wire ++ (1 ∷ 2 ∷ 3 ∷ []))
    ≡ push_messages on_wire (handle_connection none 4 [] (1 ∷ 2 ∷ 3 ∷ []))
unfolding has_prefix
sent_arrives_example =
    sent_arrives toy_hex 6 20 id five on_wire none [] 4 (1 ∷ 2 ∷ 3 ∷ []) toy_hex-IsDigest
      (omega arith) (omega arith) (omega arith) (omega arith) refl
      (format_message-sent toy_hex 6 20 id five (omega arith) (omega arith) (omega arith))

half_a_header : handle_connection none 4 [] (1 ∷ 2 ∷ 3 ∷ []) ≡ ([], read_error ended)
unfolding handle_connection read_message read_full
half_a_header = refl
