-- ===== src/Protocol/Decode/Reads/Handshake.antt =====
-- The frames of the handshake.
use zetta_transport.Common.{ℕ, ◌+◌, ◌%◌, ◌^◌, ◌<◌, ◌≡◌, refl, arith}
use zetta_transport.Common.{List, [], ◌∷◌, ◌++◌, length}
use zetta_transport.Common.{length-append}
use zetta_transport.Protocol.Wire.{Buf, get_u8, copy_to_bytes}
use zetta_transport.Protocol.Wire.{get_u16, get_u32, get_u64}
use zetta_transport.Protocol.Wire.Reads.{Reads, Reads-bind, Reads-map, Reads-need}
use zetta_transport.Protocol.Wire.Reads.{Reads-get_u8, Reads-get_u16, Reads-get_u32, Reads-get_u64}
use zetta_transport.Protocol.Wire.Reads.{
  Reads-copy_to_bytes, length-put_u16, length-put_u32, length-put_u64,
}
use zetta_transport.Protocol.TransportParameters.{TransportParameters, transcript_bytes}
use zetta_transport.Protocol.Frame.{handshake, transport_parameters}
use zetta_transport.Protocol.Decode.{parse_handshake, parse_transport_parameters}
use zetta_transport.Protocol.Decode.Reads.Control.{Reads-bytes}

module _ ⦃buf : Buf⦄ where
  open buf use {put_u16, put_u32, put_u64}

  -- What the standard library's `to_be_bytes` wrote is what `bytes` would write.
  pub transcript_bytes-put :
      (p : TransportParameters)
      → transcript_bytes p
        ≡ put_u64 p.max_streams
          ++ (put_u64 p.initial_stream_window
              ++ (put_u64 p.initial_max_data
                  ++ (put_u32 p.max_datagram_size ++ put_u64 p.idle_timeout_ms)))
  unfolding transcript_bytes
  transcript_bytes-put p =
      rw
        (
          buf.put_u64_lem p.max_streams,
          buf.put_u64_lem p.initial_stream_window,
          buf.put_u64_lem p.initial_max_data,
          buf.put_u32_lem p.max_datagram_size,
          buf.put_u64_lem p.idle_timeout_ms,
        )
        refl

  pub Reads-parse_transport_parameters :
      (p : TransportParameters)
      → p.max_streams < 2 ^ 64
      → p.initial_stream_window < 2 ^ 64
      → p.initial_max_data < 2 ^ 64
      → p.max_datagram_size < 2 ^ 32
      → p.idle_timeout_ms < 2 ^ 64
      → Reads parse_transport_parameters (transcript_bytes p) (transport_parameters p)
  unfolding parse_transport_parameters
  Reads-parse_transport_parameters p h1 h2 h3 h4 h5 = rw (transcript_bytes-put p) (
      Reads-need 36 "TransportParameters frame too short" _ _ _
        (omega (arith, length-append {0}, length-put_u32, length-put_u64))
        (Reads-bind get_u64 _ _ _ _ _ (Reads-get_u64 p.max_streams h1) (
          Reads-bind get_u64 _ _ _ _ _ (Reads-get_u64 p.initial_stream_window h2) (
            Reads-bind get_u64 _ _ _ _ _ (Reads-get_u64 p.initial_max_data h3) (
              Reads-bind get_u32 _ _ _ _ _ (Reads-get_u32 p.max_datagram_size h4)
                (Reads-map get_u64 _ _ _ _ (Reads-get_u64 p.idle_timeout_ms h5) refl))))))

  pub Reads-parse_handshake :
      (public_key ed_public_key transcript_hash signature alpn : List ℕ)
      → length public_key ≡ 32
      → length ed_public_key ≡ 32
      → length transcript_hash < 2 ^ 16
      → length signature ≡ 64
      → length alpn < 2 ^ 8
      → Reads parse_handshake
          (public_key
            ++ (ed_public_key
                ++ (put_u16 (length transcript_hash % 2 ^ 16)
                    ++ (transcript_hash ++ (signature ++ ((length alpn % 2 ^ 8) ∷ alpn))))))
          (handshake public_key ed_public_key transcript_hash signature alpn)
  unfolding parse_handshake
  Reads-parse_handshake pk ed th sig alpn hp he ht hs ha =
      let te : length th % 2 ^ 16 ≡ length th = omega arith in
      let ae : length alpn % 2 ^ 8 ≡ length alpn = omega arith in
      rw (te, ae)
        (Reads-need 130 "Handshake frame too short" _ _ _
          (omega (arith, length-append {0}, length-put_u16))
          (Reads-bind (copy_to_bytes 32) _ pk _ pk _ (Reads-bytes 32 pk hp) (
            Reads-bind (copy_to_bytes 32) _ ed _ ed _ (Reads-bytes 32 ed he) (
              Reads-bind get_u16 _ _ _ (length th) _ (Reads-get_u16 (length th) ht) (
                Reads-need (length th + 64) "Handshake frame truncated" _ _ _
                  (omega (arith, length-append {0}))
                  (Reads-bind (copy_to_bytes (length th)) _ th _ th _ (Reads-copy_to_bytes th) (
                    Reads-bind (copy_to_bytes 64) _ sig _ sig _ (Reads-bytes 64 sig hs) (
                      Reads-need 1 "Handshake frame ALPN length missing" _ (length alpn ∷ alpn) _
                        (omega arith)
                        (Reads-bind get_u8 _ (length alpn ∷ []) _ (length alpn) _
                          (Reads-get_u8 (length alpn))
                          (Reads-need (length alpn) "Handshake frame ALPN truncated" _ _ _
                            (omega arith)
                            (Reads-map (copy_to_bytes (length alpn)) _ alpn alpn _
                              (Reads-copy_to_bytes alpn) refl)))))))))))
