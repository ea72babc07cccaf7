-- ===== src/Daemon/Systemv/Files.antt =====
-- How daemon_systemv_linux.go reads small files: `io.LimitReader` in front of `ioutil.ReadAll`, and
-- in front of a `bufio.Scanner`, which gives the lines of a text.
use cyberdaemon.Prelude.{
  ℕ, Option, false, ◌<◌, ◌≡◌, none, Bytes, ok, leb, if◌then◌else◌, length, take, arith,
}
use cyberdaemon.Os.{Os, World, Stream, Action, pure, check, ◌>>=◌, ◌>>◌, open_file}

-- `io.LimitReader(f, 100000)`: an error behind the limit is never met.
abbrev pub read_limit : ℕ
read_limit = 100000

unfoldable pub limit_stream : Stream → Stream
limit_stream s =
    if leb read_limit (length s.contents)
    then record { contents = take read_limit s.contents; read_error = none }
    else s

not_leb : (n : ℕ) → n < read_limit → leb read_limit n ≡ false
not_leb n h = ground arith

pub limit_stream-short :
    (c : Bytes) (e : Option Bytes)
    → length c < read_limit
    → limit_stream (record { contents = c; read_error = e })
      ≡ record { contents = c; read_error = e }
unfolding limit_stream
limit_stream-short c e short = rw (not_leb (length c) short)

module _ (O : Os) where
  -- `tinyRead`
  unfoldable pub tiny_read : Bytes → Action O Bytes
  unfolding limit_stream
  tiny_read p = do
    f ← open_file O p
    let limited = limit_stream f
    check limited.read_error
    pure limited.contents

  -- A short file is read whole.
  pub tiny_read_short :
      (p c : Bytes) (w : World O)
      → O.open_file w.state p ≡ ok (record { contents = c; read_error = none })
      → length c < read_limit
      → tiny_read p w ≡ (ok c, w)
  unfolding tiny_read
  tiny_read_short p c w h short = rw h (rw (not_leb (length c) short))
