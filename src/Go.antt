-- ===== src/Go.antt =====
-- What the daemon uses of Go's standard library, by clauses: `strings.Split`, `strconv.Atoi`, `%d`,
-- `big.Rat.FloatString`, `hex.DecodeString` and `base64.StdEncoding.EncodeToString`.
pub mod Strings
pub mod Strconv
pub mod Rat
pub mod Hex
pub mod Base64
