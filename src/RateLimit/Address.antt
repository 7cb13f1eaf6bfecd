-- ===== src/RateLimit/Address.antt =====
-- The address of a caller behind trusted proxies.
use Prim.Native.String.{String}
use Prim.Native.String.{[] as empty_text, ◌∷◌ as ◌∷∷◌}
use ask_repo.Prelude.{
  suc, ◌≡◌, refl, ap, ◌∙◌, ◌≢◌, Option, some, List, [], ◌∷◌, ◌++◌, arith, length, get_or,
  length-append,
}
use ask_repo.RateLimit.{client_ip, counted_from_right, entries_of, peer_of}

get_or-append :
    (d : String) (xs : List String) (y : String) (ys : List String)
    → get_or (xs ++ y ∷ ys) (length xs) d ≡ y
get_or-append d [] y ys = refl
get_or-append d (x ∷ xs) y ys = get_or-append d xs y ys

counted_lem :
    (peer real : String) (forged hops : List String)
    → counted_from_right (suc (length hops)) peer (forged ++ real ∷ hops) ≡ real
unfolding counted_from_right
counted_lem peer real forged hops =
    ground (arith, length-append forged (real ∷ hops), get_or-append peer forged real hops)

-- The header is not empty, and its entries end with one for each trusted hop. Then the address is the
-- first of these last entries, whatever entries a client has put before them.
pub client_ip_ignores_prefix :
    (strip : String → String) (split : String → List String) (client : Option String)
    (header : String) (forged : List String) (real : String) (hops : List String)
    → header ≢ empty_text
    → entries_of strip split header ≡ forged ++ real ∷ hops
    → client_ip strip split client (some header) (suc (length hops)) ≡ real
unfolding client_ip
client_ip_ignores_prefix strip split client empty_text forged real hops n e = absurd (n refl)
client_ip_ignores_prefix strip split client (c ∷∷ cs) forged real hops n e =
    let found : counted_from_right (suc (length hops)) (peer_of client)
          (entries_of strip split (c ∷∷ cs))
        ≡ real =
      ap (counted_from_right (suc (length hops)) (peer_of client)) e
      ∙ counted_lem (peer_of client) real forged hops in
    ground (arith, found)
