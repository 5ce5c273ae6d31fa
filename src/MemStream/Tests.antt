-- ===== src/MemStream/Tests.antt =====
-- Runs of the memory reader and writer at concrete inputs.
use ednio.Prelude.{◌≡◌, refl, ◌+◌, ◌-◌, min, [], ◌∷◌, some, arith, take, drop, splice}
use ednio.MemStream.{MemReader, set_buffer, MemStreamWriter}
use ednio.MemStream.Reads.{reads, IsWithin, sum, reads_lem}

abbrev four : MemReader
four = set_buffer (1 ∷ 2 ∷ 3 ∷ 4 ∷ []) 4

reads_lem_example :
    reads four (3 ∷ 0 ∷ 9 ∷ [])
    ≡ some (
      take (sum (3 ∷ 0 ∷ 9 ∷ [])) (drop four.read_cnt four.buf),
      record four {
        read_cnt = four.read_cnt + min (sum (3 ∷ 0 ∷ 9 ∷ [])) (four.size - four.read_cnt);
      },
    )
unfolding set_buffer IsWithin
reads_lem_example = reads_lem four (3 ∷ 0 ∷ 9 ∷ []) (refl, omega arith)

abbrev blank : MemStreamWriter
blank = record { vec_buf = 0 ∷ 0 ∷ 0 ∷ []; capacity = 3; write_pos = 0 }

abbrev once : MemStreamWriter
once = record blank { vec_buf = splice (0 ∷ 0 ∷ 0 ∷ []) 0 (1 ∷ 2 ∷ []) }

abbrev twice : MemStreamWriter
twice = record blank { vec_buf = splice (splice (0 ∷ 0 ∷ 0 ∷ []) 0 (1 ∷ 2 ∷ [])) 0 (3 ∷ 4 ∷ []) }
