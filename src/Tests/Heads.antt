-- ===== src/Tests/Heads.antt =====
-- Runs of `find`, `well_formed_head`, the escaping of paths and the generated responses.
use bare_server.Base.{◌≡◌, refl, false, none, some, arith, Bytes, codes, All}
use bare_server.Text.{split_crlf}
use bare_server.Head.{find, well_formed_head}
use bare_server.Head.Framing.{IsLine, well_formed_head-lines}
use bare_server.Percent.{percent_decode, percent_encode_path}
use bare_server.Percent.RoundTrip.{percent_decode-percent_encode_path}
use bare_server.Percent.Safety.{IsClean, percent_decode-IsClean}

abbrev request : Bytes
request = codes "GET / HTTP/1.1\r\nHost: a\r\n\r\n"

find_terminator : find request (codes "\r\n\r\n") ≡ some 23
unfolding find
find_terminator = refl

bare_lf : well_formed_head (codes "GET / HTTP/1.1\r\nA: b\nC: d\r\n\r\n") ≡ false
unfolding well_formed_head
bare_lf = refl

well_formed_head-lines_example : All IsLine (split_crlf request)
unfolding well_formed_head
well_formed_head-lines_example = well_formed_head-lines request refl

decode_escapes : percent_decode (codes "/ab%6Fut%2ehtml") ≡ some (codes "/about.html")
unfolding percent_decode
decode_escapes = refl

decode_refusals :
    (percent_decode (codes "/a%0d") ≡ none)
    × (percent_decode (codes "/a%2") ≡ none)
    × (percent_decode (codes "/%zz") ≡ none)
unfolding percent_decode
decode_refusals = (refl, refl, refl)

percent_decode-percent_encode_path_example :
    percent_decode (percent_encode_path (codes "/a b?#%é")) ≡ some (codes "/a b?#%é")
percent_decode-percent_encode_path_example =
    percent_decode-percent_encode_path (codes "/a b?#%é") (ground arith)

percent_decode-IsClean_example : IsClean (codes "/a/b")
unfolding percent_decode
percent_decode-IsClean_example = percent_decode-IsClean (codes "/a%2Fb") refl
