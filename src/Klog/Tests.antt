-- ===== src/Klog/Tests.antt =====
-- klogtolog/adapter.go: `Write` on lines of klog, and its theorems at them.
use kube_client.Prelude.{none, some, [], ◌∷◌, ◌≡◌, refl, codes}
use kube_client.Klog.{
  write, level_of, warn, fatal, exited, returned, dots, digits_of, char, at_end, rest_of_line,
  file_and_text, find_groups,
}
use kube_client.Klog.Writes.{write-klog_line, write-is_line}

-- Opens what `Write` computes with.
write_run : Unit {0}
unfolding write level_of dots digits_of char at_end rest_of_line file_and_text find_groups
write_run = tt

-- A text with a bracket behind a number of its own is taken for the file.
another_bracket :
    find_groups (codes "I0 1  2 a:1] b:2] x\n")
    ≡ some (record { file = codes "b:2"; text = codes "x" })
unfolding write_run
another_bracket = refl

write-klog_line_example :
    write (codes "W0704 19:13:35  135000 lib.go:12] hi\n") []
    ≡ returned 0 (
        record { level = warn; file = some (codes "lib.go:12"); message = codes "hi (lib.go:12)" }
        ∷ [])
write-klog_line_example =
    write-klog_line b'W' (codes "0704") (codes "19:13:35") (codes "135000") (codes "lib.go:") b'1'
      (b'2' ∷ []) (codes "hi") [] refl refl refl refl refl refl refl refl

write-is_line_example :
    write (codes "Failed") []
    ≡ exited (record { level = fatal; file = none; message = codes "Failed" } ∷ [])
write-is_line_example = write-is_line b'F' (codes "ailed") [] refl
