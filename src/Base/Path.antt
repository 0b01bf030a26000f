-- ===== src/Base/Path.antt =====
-- Go's `path.Clean`, and `strings.ReplaceAll` of one character, on texts read as code points.
use Prim.Native.Char.{Char, code}
use Prim.Native.String.{String, ◌++◌}
use mathlib.Core.Path.{◌≡◌, refl}
use mathlib.Core.Bool.{Bool, false, ◌||◌}
use mathlib.Core.List.{List, [], ◌∷◌}
use simiclaw.Base.Tests.{◌==◌, ◌==ˢ◌, if◌then◌else◌}
use simiclaw.Base.Text.{is_empty}

unfoldable pub replace_all : Char → Char → String → String
replace_all a b String.[] = String.[]
replace_all a b (String.◌∷◌ c s) =
    String.◌∷◌ (if code c == code a then b else c) (replace_all a b s)

-- The parts between the slashes; `part` is the one that is being read.
unfoldable pub parts_from : String → String → List String
parts_from part String.[] = part ∷ []
parts_from part (String.◌∷◌ c s) =
    let ended = part ∷ parts_from "" s in
    let longer = parts_from (part ++ String.◌∷◌ c String.[]) s in
    if code c == 0x2F then ended else longer

-- The parent, on the parts that are kept, the last one first.
abbrev go_up : Bool → List String → List String
go_up rooted [] = if rooted then [] else ".." ∷ []
go_up rooted (p ∷ ps) = if p ==ˢ ".." then ".." ∷ p ∷ ps else ps

abbrev step : Bool → List String → String → List String
step rooted kept part =
    if is_empty part || part ==ˢ "."
    then kept
    else if part ==ˢ ".."
    then go_up rooted kept
    else part ∷ kept

steps : Bool → List String → List String → List String
steps rooted kept [] = kept
steps rooted kept (part ∷ rest) = steps rooted (step rooted kept part) rest

-- The kept parts, from the first one on, with slashes between them.
joined : List String → String → String
joined [] tail = tail
joined (p ∷ ps) tail = joined ps (if is_empty tail then p else p ++ "/" ++ tail)

abbrev pub is_rooted : String → Bool
is_rooted String.[] = false
is_rooted (String.◌∷◌ c s) = code c == 0x2F

unfoldable pub clean : String → String
unfolding parts_from steps joined
clean s =
    let rooted = is_rooted s in
    let body = joined (steps rooted [] (parts_from "" s)) "" in
    if rooted then "/" ++ body else if is_empty body then "." else body

clean_test : clean "runtime//native/./a/../b/" ≡ "runtime/native/b"
unfolding clean
clean_test = refl

clean_up_test : clean "../a/../../b" ≡ "../../b"
unfolding clean
clean_up_test = refl
