-- ===== src/Messages/Forwarding.antt =====
-- What the body of a response does to the client's writer, whatever frames it.
use nginx_remake_v.Prelude.{
  ℕ, Bool, true, false, Option, none, some, Text, Option, number_keys, text_keys,
}
use nginx_remake_v.Prelude.Dict.{Dict}
use nginx_remake_v.Exec.{Coro, pure}
use nginx_remake_v.Exec.Rules.{Keeps}
use nginx_remake_v.Python.{Unicode, ℤ, pos, negsuc}
use nginx_remake_v.Stream.{StreamWriter}
use nginx_remake_v.BodyStreamer.{Link, stream_identity, stream_to_eof}
use nginx_remake_v.BodyStreamer.Chunked.{stream_chunked}
use nginx_remake_v.BodyStreamer.Writing.{
  IsKept, OfWriter, stream_identity-Keeps, stream_to_eof-Keeps, stream_chunked-Keeps,
}
use nginx_remake_v.Messages.{parse_content_length, is_chunked, stream_body, stream_response}

module _ (P : StreamWriter → Type 0) (kept : IsKept P) (u : Unicode) where
  -- The framings of a response, by its length and by whether it is chunked.
  framed_Keeps :
      (fuel chunk_size : ℕ) (o : Option ℤ) (b : Bool) (l : Link)
      → P l.writer
      → P
          (elim o as (λ _. Coro Link ℕ) [
            | some (pos n) ↦ stream_identity chunk_size n
            | some (negsuc n) ↦ pure 0
            | none ↦ elim b [
              | true ↦ stream_chunked fuel chunk_size
              | false ↦ stream_to_eof fuel chunk_size
            ]
          ]
            l).1.writer
  framed_Keeps fuel chunk_size (some (pos n)) b l p = stream_identity-Keeps P kept chunk_size n l p
  framed_Keeps fuel chunk_size (some (negsuc n)) b l p = p
  framed_Keeps fuel chunk_size none true l p = stream_chunked-Keeps P kept fuel chunk_size l p
  framed_Keeps fuel chunk_size none false l p = stream_to_eof-Keeps P kept fuel chunk_size l p

  pub stream_response-Keeps :
      (fuel chunk_size : ℕ) (headers : Dict Text Text)
      → Keeps (OfWriter P kept) (stream_response u fuel chunk_size headers)
  unfolding stream_response stream_body
  stream_response-Keeps fuel chunk_size headers l p =
      framed_Keeps fuel chunk_size (parse_content_length u headers) (is_chunked u headers) l p
