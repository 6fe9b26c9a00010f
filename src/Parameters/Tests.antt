-- ===== src/Parameters/Tests.antt =====
-- Examples of parameters/src.
use gz_transport.Common.{
  ℕ, ◌≡◌, refl, ap, sym, true, false, some, none, [], ◌∷◌, ◌++◌, bytes, text_eq, has_char,
  ends_with, take, if◌then◌else◌,
}
use gz_transport.Common.Map.{Map, lookup, insert}
use gz_transport.Parameters.{Messages, ParameterResultType, result_only, result_for}
use gz_transport.Parameters.Client.{client_parameter, client_set_parameter}
use gz_transport.Parameters.Served.{
  AnyLaws, serve_get, serve_set, client_parameter-undeclared, set-then-get,
}

-- Messages of one type, which hold a number.
instance abbrev numbers : Messages ℕ
numbers = record {
  full_name = λ n. bytes "pkg.Number";
  pack = λ p n. some (record {
    type_url = if ends_with b'/' p then p ++ bytes "pkg.Number" else p ++ b'/' ∷ bytes "pkg.Number";
    value = n ∷ [];
  });
  unpack = λ a old. elim a.value [ [] ↦ (old, false) | n ∷ rest ↦ (n, true) ];
  new_message = λ name. if text_eq name (bytes "pkg.Number") then some 0 else none;
}

numbers-AnyLaws : AnyLaws numbers
unfolding has_char
numbers-AnyLaws = record {
  pack_address = λ p m a e. ap (λ o. elim o [ none ↦ [] | some b ↦ b.type_url ]) (sym e);
  unpack_pack = λ p m target a e h.
      ap (λ o. elim o [ none ↦ (m, true) | some b ↦ numbers.unpack b target ]) (sym e);
  no_slash = λ m. refl;
}

abbrev declared : Map ℕ
declared = (bytes "gain", 3) ∷ []

client_parameter-undeclared_example :
    (client_parameter {Msg = ℕ} (serve_get (bytes "/ns") declared) (bytes "/ns") (bytes "mass") 7
      ≡ (7, result_for ParameterResultType.unexpected (bytes "mass")))
    × (client_parameter {Msg = ℕ} (λ service n. none) (bytes "/ns") (bytes "mass") 7
        ≡ (7, result_for ParameterResultType.unexpected (bytes "mass")))
unfolding lookup text_eq
client_parameter-undeclared_example =
    client_parameter-undeclared {Msg = ℕ} (bytes "/ns") (bytes "mass") 7 declared refl

set-then-get_example :
    let answer =
      client_set_parameter {Msg = ℕ}
        (serve_set (bytes "/ns"))
        (bytes "/ns")
        (bytes "gain")
        5
        declared in
    (answer ≡ (insert (bytes "gain") 5 declared, result_only ParameterResultType.success))
    × (client_parameter {Msg = ℕ} (serve_get (bytes "/ns") answer.0) (bytes "/ns") (bytes "gain") 7
        ≡ (5, result_only ParameterResultType.success))
unfolding lookup text_eq take ends_with
set-then-get_example =
    set-then-get {Msg = ℕ} numbers-AnyLaws (bytes "/ns") (bytes "gain") 5 3 7
      (record { type_url = bytes "type.googleapis.com/pkg.Number"; value = 5 ∷ [] })
      (record { type_url = bytes "gz_msgs/pkg.Number"; value = 5 ∷ [] }) declared refl refl refl
      refl refl refl
