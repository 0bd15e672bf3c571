-- ===== src/TcpClient/Partial.antt =====
-- How much of what a client is given to send goes through when writes fail.
use scion_int_p.Prelude.{
  ◌≡◌, sym, ap, ap₂, subst⁻¹, ◌∙◌, [], ◌++◌, Bytes, Bool, true, false, IsPrefix, IsPrefix-left,
  append_assoc, append-nil,
}

-- How much of the bytes `whole` has gone through a client, by whether it was active before and is now.
pub data Carried (bytes whole : Bytes) : Bool → Bool → Type 0 where
  kept : bytes ≡ whole → Carried bytes whole true true
  broken : IsPrefix bytes whole → Carried bytes whole true false
  shut : bytes ≡ [] → Carried bytes whole false false

IsPrefix-more : (b w w' : Bytes) → IsPrefix b w → IsPrefix (b ++ []) (w ++ w')
IsPrefix-more b w w' (rest, e) = (
  rest ++ w',
  append_assoc b [] (rest ++ w') ∙ sym (append_assoc b rest w') ∙ ap (λ x. x ++ w') e,
)

pub Carried-append :
    (b w b' w' : Bytes) {x y z : Bool}
    → Carried b w x y
    → Carried b' w' y z
    → Carried (b ++ b') (w ++ w') x z
Carried-append b w b' w' (Carried.kept e) (Carried.kept e') =
    Carried.kept (ap₂ (λ x y. x ++ y) e e')
Carried-append b w b' w' (Carried.kept e) (Carried.broken p) =
    Carried.broken (subst⁻¹ (λ x. IsPrefix (x ++ b') (w ++ w')) e (IsPrefix-left w b' w' p))
Carried-append b w b' w' (Carried.broken p) (Carried.shut e') =
    Carried.broken (subst⁻¹ (λ x. IsPrefix (b ++ x) (w ++ w')) e' (IsPrefix-more b w w' p))
Carried-append b w b' w' (Carried.shut e) (Carried.shut e') =
    Carried.shut (ap₂ (λ x y. x ++ y) e e')

-- What has gone through at the end: a part from the front, and nothing through a closed connection.
abbrev pub Through : Bool → Bytes → Bytes → Type 0
Through true bytes whole = IsPrefix bytes whole
Through false bytes whole = bytes ≡ []

pub Carried-Through :
    (b w b' w' : Bytes) {x y : Bool}
    → Carried b w x y
    → Through y b' w'
    → Through x (b ++ b') (w ++ w')
Carried-Through b w b' w' (Carried.kept e) p =
    subst⁻¹ (λ x. IsPrefix (x ++ b') (w ++ w')) e (IsPrefix-left w b' w' p)
Carried-Through b w b' w' (Carried.broken p) e =
    subst⁻¹ (λ x. IsPrefix (b ++ x) (w ++ w')) e (IsPrefix-more b w w' p)
Carried-Through b w b' w' (Carried.shut e) e' = ap₂ (λ x y. x ++ y) e e'

pub Carried-whole : (b w : Bytes) {x y : Bool} → Carried b w x y → Through x b w
Carried-whole b w (Carried.kept e) = ([], append-nil b ∙ e)
Carried-whole b w (Carried.broken p) = p
Carried-whole b w (Carried.shut e) = e

pub Through-nil : (x : Bool) (b w : Bytes) → b ≡ [] → Through x b w
Through-nil true b w e = (w, ap (λ a. a ++ w) e)
Through-nil false b w e = e
