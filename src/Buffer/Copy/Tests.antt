-- ===== src/Buffer/Copy/Tests.antt =====
-- Copies of concrete buffers.
use unp.Base.{◌≡◌, false, some, ◌++◌, arith, take, drop}
use unp.Buffer.Store.{Buffer}
use unp.Buffer.Packed.{view, IsPacked}
use unp.Buffer.Iter.Tests.{second_byte, second_byte-Place, second_byte_inside}
use unp.Buffer.Tests.{two_chains, two_chains-IsPacked, length-two_chains}
use unp.Buffer.Copy.{copy_buffer, copy_from, append_buffer, copy_out_from}
use unp.Buffer.Copy.Whole.{copy_buffer-view}
use unp.Buffer.Copy.From.{copy_from-view, append_buffer-view}
use unp.Buffer.Copy.Out.{copy_out_from-view}

copy_buffer-view_example :
    (b : Buffer) × (copy_buffer two_chains ≡ some b) × IsPacked b × (view b ≡ view two_chains)
copy_buffer-view_example =
    copy_buffer-view two_chains two_chains-IsPacked (omega (arith, length-two_chains))

copy_from-view_example :
    (b : Buffer) × (copy_from 7 two_chains 3 second_byte ≡ some b)
    × IsPacked b
    × (view b ≡ take 3 (drop 1 (view two_chains)))
copy_from-view_example =
    copy_from-view 7 two_chains 3 second_byte two_chains-IsPacked second_byte-Place
      second_byte_inside (omega arith) (omega (arith, length-two_chains))
      (omega (arith, length-two_chains))

append_buffer-view_example :
    (b' : Buffer) × (append_buffer 7 two_chains two_chains 3 second_byte ≡ some (b', some 3))
    × IsPacked b'
    × (view b' ≡ view two_chains ++ take 3 (drop 1 (view two_chains)))
append_buffer-view_example =
    append_buffer-view 7 two_chains two_chains 3 second_byte two_chains-IsPacked two_chains-IsPacked
      second_byte-Place second_byte_inside (omega arith) (omega (arith, length-two_chains))
      (omega (arith, length-two_chains)) (omega (arith, length-two_chains))

copy_out_from-view_example :
    copy_out_from 7 two_chains false 3 second_byte ≡ some (some (take 3 (drop 1 (view two_chains))))
copy_out_from-view_example =
    copy_out_from-view 7 two_chains 3 second_byte two_chains-IsPacked second_byte-Place
      second_byte_inside (omega arith) (omega (arith, length-two_chains))
      (omega (arith, length-two_chains))
