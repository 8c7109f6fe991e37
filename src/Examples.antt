-- ===== src/Examples.antt =====
-- Tests of the definitions on concrete inputs, and the theorems at inputs that meet their hypotheses.
mod Benchmark
mod Clients
mod CommandLine
mod Files
mod HttpRequests
mod HttpResponses
mod Interleavings
mod Launch
mod Rings
mod Serving
mod Sockets
mod Startup
mod SystemLimits
mod TaskQueues
