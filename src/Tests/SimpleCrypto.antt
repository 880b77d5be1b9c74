-- ===== src/Tests/SimpleCrypto.antt =====
-- The library in two windows: one with WebCrypto, and one without.
use crypto_security_projects.Base.{ℕ, ◌≡◌, refl, true, false, [], some, none}
use crypto_security_projects.Js.{ok}
use crypto_security_projects.Environment.{Window, crypto_object, crypto_subtle}
use crypto_security_projects.SimpleCrypto.{
  Natives, without_database, library_of, factory, Globals, global, register,
}
use crypto_security_projects.SimpleCrypto.Missing.{Unusable, factory-Unusable}
use crypto_security_projects.Tests.Environment.{with_subtle, without_subtle, window_of}
use crypto_security_projects.Tests.Toy.{toy, Shown}

abbrev natives : Natives ℕ ℕ ℕ
natives = record {
  interface = λ s. toy;
  has_then = λ s. true;
  random_bytes = toy.random_bytes;
  random_uint16 = toy.random_uint16;
  json = record { stringify = λ jwk. []; parse = λ units. ok [] };
  database = λ d. without_database;
}

abbrev old_window : Window ℕ ℕ
old_window = window_of (some without_subtle) none

abbrev window : Window ℕ ℕ
window = window_of (some with_subtle) none

factory-Unusable_example :
    (factory natives {E = Shown} old_window ≡ ok (library_of natives old_window none))
    × Unusable Unit ℕ
        (library_of natives {E = Shown} old_window none).db.State
        Shown
        (library_of natives old_window none).simple_crypto
unfolding crypto_object
factory-Unusable_example = factory-Unusable natives old_window without_subtle refl refl refl

-- A page with neither `define` nor `module`.
abbrev plain : Globals
plain = record {
  define_is_function = false;
  define_amd = false;
  module_is_object = false;
  module_exports = false;
}

library_is_global :
    register plain (factory natives {E = Shown} window)
    ≡ ok (global (library_of natives window (some 1)))
unfolding register factory crypto_subtle crypto_object
library_is_global = refl
