-- ===== src/Examples.antt =====
-- Each theorem with a hypothesis, applied to a concrete input.
mod Net
mod Router
mod Http
mod Core
mod Worker
mod Modules
mod Server
mod Conf
mod Responses
mod Pages
mod Man
