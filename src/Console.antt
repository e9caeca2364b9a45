-- ===== src/Console.antt =====
-- The console: parser/cmd/parser/app.go, and what parser/internal/parsers_manager reads from it and
-- prints on it. Its children hold the parts: Text (what the code uses of package strings and
-- strconv), Html (cleanHTML).
pub mod Text
pub mod Html
pub mod Input
pub mod Menu
pub mod Print
mod Tests
