-- ===== src/Crates.antt =====
-- The third-party crates that the program calls: their interfaces, with the behaviour that their
-- documentation states (`Defs`), and one implementation for the tests (`Model`). Nothing here is
-- defined by the repository.
mod Defs
pub mod Model
pub use Defs.{IsSingle, IsVisible, Http, PercentEncoding, Base64, Flate, Crates}
unfoldable pub use Defs.{first_value}
