-- ===== src/Tests/Platform.antt =====
-- A platform on which the models run: `dumps` writes a text as itself and refuses what is opaque.
use agent_trust_ops.Prelude.{ℕ, zero, suc, ◌*◌, String, refl, true, false, some, ◌<>◌}
use agent_trust_ops.Errors.{Result, ok, err, type_error, ◌>>=◌}
use agent_trust_ops.Json.{
  Json, null, opaque, boolean, nat, number, str, arr, obj, Items, nil, cons, Fields, end, field,
  Platform, IsCanonical,
}

unfoldable pub unary : ℕ → String
unary zero = ""
unary (suc n) = "x" <> unary n

unfoldable mutual
  pub dump : Json → Result String
  dump null = ok "null"
  dump opaque = err (type_error "not JSON serializable")
  dump (boolean true) = ok "true"
  dump (boolean false) = ok "false"
  dump (nat n) = ok (unary n)
  dump (number s) = ok s
  dump (str s) = ok s
  dump (arr items) = do t ← dump_items items; ok ("[" <> (t <> "]"))
  dump (obj fields) = do t ← dump_fields fields; ok ("{" <> (t <> "}"))

  pub dump_items : Items → Result String
  dump_items nil = ok ""
  dump_items (cons v l) = do s ← dump v; t ← dump_items l; ok (s <> ("," <> t))

  pub dump_fields : Fields → Result String
  dump_fields end = ok ""
  dump_fields (field k v l) = do s ← dump v; t ← dump_fields l; ok (k <> (":" <> (s <> ("," <> t))))

instance abbrev pub test_platform : Platform
test_platform = record {
  dumps = dump;
  loads = str;
  sha256 = λ t. t;
  isoformat = λ n. "2026-01-01T00:00:00+00:00";
  has_timezone = λ t. some true;
  clock = λ n. n * 2;
  uuid = unary;
}

pub test_platform-IsCanonical : IsCanonical test_platform
unfolding dump
test_platform-IsCanonical v t h = refl
