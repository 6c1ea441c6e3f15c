-- ===== src/Tests/Consoles.antt =====
-- A line that arrives in two chunks.
use webot_msg.Common.{◌≡◌, refl, ◌++◌, codes}
use webot_msg.Control.Splitter.{push, push-append}

push-append_example :
    let first = push (codes "on") (record { tail = codes "> " }) in
    let second = push (codes "e\n> ") first.1 in
    let whole = push (codes "one\n> ") (record { tail = codes "> " }) in
    (whole.0.lines ≡ first.0.lines ++ second.0.lines)
    × (whole.0.prompt ≡ second.0.prompt)
    × (whole.1 ≡ second.1)
push-append_example =
    push-append b'o' b'e' (codes "n") (codes "\n> ") (record { tail = codes "> " }) refl
