-- ===== src/BufferedReader/Tests.antt =====
-- The wrapper on concrete streams.
use nginx_remake_v.Prelude.{◌≡◌, refl, [], ◌∷◌, arith, codes, number_keys, text_keys}
use nginx_remake_v.Exec.{ok, err, incomplete_read}
use nginx_remake_v.Stream
use nginx_remake_v.Stream.{StreamReader, Arrival, chunk, stall}
use nginx_remake_v.BufferedReader.{UnreadableStreamReader, join, read, readline, readexactly}
use nginx_remake_v.BufferedReader.Laws.{Gives, read-Gives}
use nginx_remake_v.BufferedReader.Lines.{ReadsLine, readline-ReadsLine}

-- "ab" was put back, "c" has arrived, and "\nd" will come.
abbrev reader : UnreadableStreamReader
reader = record {
  inner = record { buffer = codes "c"; coming = chunk (codes "\nd") ∷ [] };
  unread_buffer = codes "ab" ∷ [];
}

reads_back : (read 1 reader).0 ≡ ok (codes "a")
unfolding read
reads_back = refl

abbrev rest : UnreadableStreamReader
rest = record {
  inner = record { buffer = []; coming = chunk (codes "\nd") ∷ [] };
  unread_buffer = [];
}

reads_across : read 5 reader ≡ (ok (codes "abc"), rest)
unfolding read Stream.read Stream.await_data
reads_across = refl

-- Three bytes may be more than one read brings.
reads_short : (readexactly 4 reader).0 ≡ err incomplete_read
unfolding readexactly read Stream.read Stream.await_data
reads_short = refl

read-Gives_example : Gives 5 reader (read 5 reader)
read-Gives_example = read-Gives 5 reader (omega arith)

readline-ReadsLine_example : ReadsLine (codes "abc\n") (codes "d") (readline reader)
unfolding Stream.split_line join
readline-ReadsLine_example = readline-ReadsLine reader tt refl (omega arith)
