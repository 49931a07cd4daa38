-- ===== src/Web.antt =====
-- internal/web: the server of the web page. Here stands the part that decides which clusters a user
-- may see, in Web/Scope.
pub mod Scope
