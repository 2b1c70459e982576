-- ===== src/Words/Tests.antt =====
-- The cases of pkg/strings/strings_test.go.
use cluster_monitoring_opera.Base.{◌≡◌, refl, string_eq, nat_eq, All, false}
use cluster_monitoring_opera.Words.{to_pascal_case, add_boundaries, to_pascal, chars, is_separator}
use cluster_monitoring_opera.Words.Separators.{to_pascal-Plain}

two_words : to_pascal_case "taskNumber- one" ≡ "TaskNumberOne"
unfolding to_pascal_case add_boundaries string_eq nat_eq
two_words = refl

underscored : to_pascal_case "foooo_foo_bar" ≡ "FooooFooBar"
unfolding to_pascal_case add_boundaries string_eq nat_eq
underscored = refl

trimmed : to_pascal_case "   foo bar   " ≡ "FooBar"
unfolding to_pascal_case add_boundaries string_eq nat_eq
trimmed = refl

numbered : to_pascal_case "numbers2And55with000" ≡ "Numbers2And55With000"
unfolding to_pascal_case add_boundaries string_eq nat_eq
numbered = refl

empty : to_pascal_case "" ≡ ""
unfolding to_pascal_case add_boundaries string_eq nat_eq
empty = refl

to_pascal-Plain_example : All (λ c. is_separator c ≡ false) (to_pascal (chars "foooo_foo bar"))
to_pascal-Plain_example = to_pascal-Plain (chars "foooo_foo bar")
