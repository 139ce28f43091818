-- ===== src/Buffer.antt =====
-- The fixed `char` arrays of the programs (`tempBuff[MAXDATASIZE]` and the like) and the library
-- calls that fill them. A write past the end changes no cell and is counted in `spilled`.
pub mod Frames
pub mod Reading
pub mod Leftover
use live_streamer.Common.{
  ℕ, ◌+◌, ◌-◌, List, [], ◌∷◌, ◌++◌, ltb, if◌then◌else◌, length, set, take, replicate,
}
use live_streamer.Text.{Text, c_string}

pub record Buffer : Type 0 where
  pub cells : List ℕ
  pub spilled : ℕ

-- #define MAXDATASIZE 255
unfoldable pub max_data_size : ℕ
max_data_size = 255

-- Bytes copied to the start of an array of cells, as far as it reaches.
unfoldable pub overwrite : List ℕ → List ℕ → List ℕ
overwrite [] bs = []
overwrite (c ∷ cs) [] = c ∷ cs
overwrite (c ∷ cs) (b ∷ bs) = b ∷ overwrite cs bs

-- A copy of bytes to the start of the array.
unfoldable pub copy_in : List ℕ → Buffer → Buffer
unfolding overwrite
copy_in bs buf = record {
  cells = overwrite buf.cells bs;
  spilled = buf.spilled + (length bs - length buf.cells);
}

-- `buf[i] = v`
unfoldable pub store : ℕ → ℕ → Buffer → Buffer
store i v buf =
    if ltb i (length buf.cells)
    then record buf { cells = set buf.cells i v }
    else record buf { spilled = buf.spilled + 1 }

-- `memset(buf, 0, n)`
unfoldable pub memset : ℕ → Buffer → Buffer
unfolding copy_in
memset n = copy_in (replicate n 0)

-- `snprintf(buf, n, …)`, with the formatted text: at most n - 1 bytes of it and a NUL.
unfoldable pub snprintf : ℕ → Text → Buffer → Buffer
unfolding copy_in
snprintf n t = copy_in (take (n - 1) t ++ 0 ∷ [])

-- `sprintf(buf, …)`, with the formatted text: all of it and a NUL.
unfoldable pub sprintf : Text → Buffer → Buffer
unfolding copy_in
sprintf t = copy_in (t ++ 0 ∷ [])

-- The array as a C string.
unfoldable pub text : Buffer → Text
unfolding c_string
text buf = c_string buf.cells
